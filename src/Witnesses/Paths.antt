-- ===== src/Witnesses/Paths.antt =====
-- A directory name that is too long, cut between its runes, and a selection of folders.
use dorganizer.Prelude.{
  codes, is_nil, any_b, not, ◌&&◌, ◌==◌, bytes_eq, ℕ, ◌≤◌, true, List, [], ◌∷◌, Bytes, length,
  has_prefix, ◌≡◌, refl,
}
use dorganizer.GoPath
use dorganizer.Prelude.Member.{elem, nodup_b}
use dorganizer.Pathnorm.{truncate_utf8_to_max_bytes}
use dorganizer.Workset.Selection.{normalize_selection, normalize_selection_lem}
use dorganizer.Witnesses.Samples.{program}
use dorganizer.Pathnorm.Truncation.{truncate_utf8_to_max_bytes_lem}

-- Two runes of three bytes each, and room for four bytes.
abbrev two_runes : Bytes
two_runes = 227 ∷ 129 ∷ 130 ∷ 227 ∷ 129 ∷ 132 ∷ []

abbrev threes : Bytes → List ℕ
threes s = 3 ∷ 3 ∷ []

truncate_utf8_to_max_bytes_lem_example :
    (length (truncate_utf8_to_max_bytes threes 4 two_runes) ≤ 4)
    × (has_prefix two_runes (truncate_utf8_to_max_bytes threes 4 two_runes) ≡ true)
    × (length two_runes ≤ 4 → truncate_utf8_to_max_bytes threes 4 two_runes ≡ two_runes)
truncate_utf8_to_max_bytes_lem_example = truncate_utf8_to_max_bytes_lem threes 4 two_runes

cut_between_runes : truncate_utf8_to_max_bytes threes 4 two_runes ≡ 227 ∷ 129 ∷ 130 ∷ []
unfolding truncate_utf8_to_max_bytes
cut_between_runes = refl

-- A folder listed twice, once with a space, and a blank.
abbrev listed : List Bytes
listed = codes "b" ∷ codes " a" ∷ codes "b" ∷ codes " " ∷ []

abbrev without_space : Bytes → Bytes
without_space s = GoPath.trim_prefix s (codes " ")

normalize_selection_lem_example :
    (nodup_b (normalize_selection without_space listed) ≡ true)
    × ((t : Bytes)
        → elem t (normalize_selection without_space listed)
          ≡ (not (is_nil t) && any_b (λ p. without_space p == t) listed))
normalize_selection_lem_example = normalize_selection_lem without_space listed

two_selected : normalize_selection without_space listed ≡ codes "a" ∷ codes "b" ∷ []
unfolding normalize_selection program GoPath.trim_prefix
two_selected = refl
