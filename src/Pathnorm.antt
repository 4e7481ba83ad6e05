-- ===== src/Pathnorm.antt =====
-- pathnorm/pathnorm.go: the persisted form of paths, and what lies within a root.
use dorganizer.Prelude.{
  ℕ, zero, suc, ◌+◌, ◌<◌, Bool, true, false, ◌&&◌, ◌||◌, not, List, [], ◌∷◌, ◌++◌, Option, none,
  some, Bytes, bytes_beq, codes, nat_beq, leb, ltb, if◌then◌else◌, is_nil, length, map, any_b, take,
  has_prefix,
}
use dorganizer.GoPath
use dorganizer.GoPath.{slash}
pub mod Truncation

abbrev pub backslash : ℕ
backslash = 92

-- `NormalizeToPOSIX`
abbrev pub normalize_to_posix : Bytes → Bytes
normalize_to_posix p = map (λ c. if nat_beq c backslash then slash else c) p

abbrev pub recovery_dir_name : Bytes
recovery_dir_name = codes "Delete"

abbrev is_letter : ℕ → Bool
is_letter c = (leb b'a' c && leb c b'z') || (leb b'A' c && leb c b'Z')

abbrev pub is_windows_drive_path : Bytes → Bool
is_windows_drive_path (c ∷ d ∷ _) = nat_beq d b':' && is_letter c
is_windows_drive_path _ = false

abbrev third_is_slash : Bytes → Bool
third_is_slash (_ ∷ _ ∷ c ∷ []) = nat_beq c slash
third_is_slash _ = false

abbrev pub is_windows_drive_root : Bytes → Bool
is_windows_drive_root p = third_is_slash p && is_windows_drive_path p

unfoldable pub is_windows_unc_path : Bytes → Bool
is_windows_unc_path path =
    let normalized = map (λ c. if nat_beq c slash then backslash else c) path in
    let device = backslash ∷ backslash ∷ b'?' ∷ backslash ∷ [] in
    has_prefix normalized (device ++ (codes "UNC" ++ backslash ∷ []))
    || (has_prefix normalized (backslash ∷ backslash ∷ []) && not (has_prefix normalized device))

abbrev device_prefix : Bytes
device_prefix = codes "//?/"

-- `windowsPath` of `IsWithinRoot`, and `IsWindowsCaseInsensitivePath`
unfoldable pub is_windows_case_insensitive_path : Bytes → Bool
unfolding is_windows_unc_path
is_windows_case_insensitive_path p =
    let normalized = normalize_to_posix p in
    is_windows_unc_path p || is_windows_drive_path normalized || has_prefix normalized device_prefix

-- Cleaned, a drive root with its slash again.
unfoldable pub comparable : Bytes → Bytes
comparable p =
    let normalized = normalize_to_posix p in
    let cleaned = GoPath.clean normalized in
    if is_windows_drive_root normalized then cleaned ++ slash ∷ [] else cleaned

-- The comparison of two cleaned paths.
unfoldable pub lies_within : Bytes → Bytes → Bool
lies_within root candidate =
    if bytes_beq candidate root
    then true
    else if bytes_beq root (slash ∷ [])
    then has_prefix candidate (slash ∷ [])
    else has_prefix candidate (GoPath.trim_suffix root (slash ∷ []) ++ slash ∷ [])

module _ (to_lower : Bytes → Bytes) where
  abbrev fold_case : Bool → Bytes → Bytes
  fold_case windows p = if windows then to_lower p else p

  unfoldable pub is_within_root : Bytes → Bytes → Bool
  unfolding is_windows_case_insensitive_path comparable lies_within
  is_within_root root candidate =
      let windows = is_windows_case_insensitive_path root in
      if is_nil root || is_nil candidate
      then false
      else lies_within (fold_case windows (comparable root))
          (fold_case windows (comparable candidate))

  -- The rest behind a prefix that `strings.CutPrefix` found, cleaned and put behind it again.
  abbrev clean_behind : Bytes → (Bytes → Bytes) → Bytes → Bytes
  clean_behind prefix finish rest =
      let cleaned = GoPath.clean rest in
      if is_nil rest || (bytes_beq cleaned (codes ".") || bytes_beq cleaned (codes "/"))
      then prefix
      else prefix ++ finish cleaned

  unfoldable pub clean_root_path : Bytes → Bytes
  clean_root_path raw =
      let p = normalize_to_posix raw in
      let device = GoPath.trim_prefix p (codes "//?") in
      let share = GoPath.trim_prefix p (codes "//") in
      if is_windows_drive_root p
      then p
      else if has_prefix p (codes "//?")
      then clean_behind (codes "//?") (λ c. slash ∷ GoPath.trim_prefix c (slash ∷ [])) device
      else if has_prefix p (codes "//")
      then clean_behind (codes "//") (λ c. c) share
      else GoPath.clean p

  unfoldable pub root_path_key : Bytes → Bytes
  unfolding clean_root_path is_windows_case_insensitive_path
  root_path_key p =
      let cleaned = clean_root_path p in
      if is_windows_case_insensitive_path p then to_lower cleaned else cleaned

-- `filepath.Abs`, `filepath.EvalSymlinks` and `filepath.Rel`, and whether the host is Windows.
pub record Resolver : Type 0 where
  pub absolute : Bytes → Option Bytes
  pub eval_symlinks : Bytes → Option Bytes
  pub rel : Bytes → Bytes → Option Bytes
  pub on_windows : Bool
  pub to_lower : Bytes → Bytes

abbrev resolve : Resolver → Bytes → Option Bytes
resolve r p = elim (r.absolute (normalize_to_posix p)) [ none ↦ none | some a ↦ r.eval_symlinks a ]

-- A relative path that leads out of its base.
abbrev pub leads_out : Bytes → Bool
leads_out relative =
    bytes_beq relative (codes "..")
    || (has_prefix relative (codes "../") || has_prefix relative (slash ∷ []))

abbrev contains_path : Resolver → Option Bytes → Option Bytes → Option Bool
contains_path r none _ = none
contains_path r (some root) none = none
contains_path r (some root) (some candidate) =
    let fold : Bytes → Bytes = λ p. if r.on_windows then r.to_lower p else p in
    elim (r.rel (fold root) (fold candidate)) [
      | none ↦ none
      | some relative ↦ some (not (leads_out relative))
    ]

-- `IsResolvedWithinRoot`; `none` is an error.
unfoldable pub is_resolved_within_root : Resolver → Bytes → Bytes → Option Bool
is_resolved_within_root r root candidate =
    if is_nil root || is_nil candidate
    then some false
    else contains_path r (resolve r root) (resolve r candidate)

-- `seg == "" || seg == "." || seg == ".."`
abbrev pub is_improper : Bytes → Bool
is_improper seg = is_nil seg || (bytes_beq seg (codes ".") || bytes_beq seg (codes ".."))

-- `RelPath`: the cleaned form of a library-relative path, if it is one.
unfoldable pub rel_path : Bytes → Option Bytes
rel_path rel =
    let normalized = normalize_to_posix rel in
    let segments = GoPath.split_on slash normalized in
    let cleaned = GoPath.join segments in
    if is_nil rel || any_b (λ c. nat_beq c 0) rel
    then none
    else if any_b (λ c. nat_beq c backslash) rel
    then none
    else if has_prefix normalized (slash ∷ [])
    then none
    else if is_windows_drive_path normalized
    then none
    else if any_b is_improper segments
    then none
    else if is_nil cleaned || (bytes_beq cleaned (codes ".") || has_prefix cleaned (slash ∷ []))
    then none
    else some cleaned

-- `JoinRel`
unfoldable pub join_rel : Bytes → Bytes → Bytes
join_rel root rel = GoPath.join (normalize_to_posix root ∷ rel ∷ [])

-- `truncateUTF8ToMaxBytes`: the bytes of the runes that fit. `rune_lens` are the lengths that
-- `utf8.RuneLen` gives for the runes of a `range` loop.
unfoldable pub rune_cut : ℕ → ℕ → List ℕ → ℕ
rune_cut max count [] = count
rune_cut max count (n ∷ ns) =
    let rest = rune_cut max (count + n) ns in if ltb max (count + n) then count else rest

unfoldable pub truncate_utf8_to_max_bytes : (Bytes → List ℕ) → ℕ → Bytes → Bytes
unfolding rune_cut
truncate_utf8_to_max_bytes rune_lens max s =
    if leb (length s) max then s else take (rune_cut max 0 (rune_lens s)) s

-- `TruncatePathComponentsToBytes` where the separator is a slash.
unfoldable pub truncate_path_components_to_bytes : (Bytes → List ℕ) → Bytes → ℕ → Bytes
unfolding truncate_utf8_to_max_bytes
truncate_path_components_to_bytes rune_lens path max =
    if nat_beq max 0 || (is_nil path || bytes_beq path (codes "."))
    then path
    else GoPath.join_with slash (
        map
          (λ part. if is_improper part then part else truncate_utf8_to_max_bytes rune_lens max part)
          (GoPath.split_on slash path))
