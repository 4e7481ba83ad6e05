-- ===== src/Reconcile/Grouping/Parsed.antt =====
-- What parsing an entry fixes: the file keeps its entry, and its stem is a function of the path.
use dorganizer.Prelude.{
  false, List, [], ◌∷◌, Option, none, some, Bytes, bytes_beq, bytes_beq_iff, All, All-mem, any_b,
  Option-cases, Bool-cases, inl, inr, ◌≡◌, refl, sym, ◌∙◌, ap, arith,
}
use dorganizer.GoPath
use dorganizer.Reconcile.Types.{AudioEntry, GroupedFile, is_lossless_codec}
use dorganizer.Reconcile.Effects.{observed}
use dorganizer.Reconcile.Grouping.{
  Runtime, codec_by_ext, stem_of, parse_file, add_parsed, parse_files,
}
use dorganizer.Reconcile.Grouping.Stems.{SamePath}

-- `strings.ToLower("")` is `""`.
pub record Laws (rt : Runtime) : Type 0 where
  pub lower_empty : rt.to_lower [] ≡ []

abbrev pub stem_key : Runtime → Bytes → Bytes
stem_key rt path = rt.to_lower (stem_of rt (GoPath.base path) (rt.to_lower (GoPath.ext path)))

abbrev pub IsParsed : Runtime → GroupedFile → Type 0
IsParsed rt f = parse_file rt f.entry ≡ some f

some_inv : {f g : GroupedFile} → ◌≡◌ {A = Option GroupedFile} (some f) (some g) → f ≡ g
some_inv e = cc

pub parse_file_inv :
    (rt : Runtime) (e : AudioEntry) (f : GroupedFile)
    → parse_file rt e ≡ some f
    → (f.entry ≡ e)
      × (f.stem ≡ stem_key rt e.path_posix)
      × (f.lossless ≡ is_lossless_codec f.codec)
      × (codec_by_ext (rt.to_lower (GoPath.ext e.path_posix)) ≡ some f.codec)
unfolding parse_file
parse_file_inv rt e f h =
    elim (Option-cases (codec_by_ext (rt.to_lower (GoPath.ext e.path_posix)))) [
      | inl n ↦ cc (rw (n, parse_file) at h)
      | inr (c, k) ↦
          let same = some_inv (sym (rw (k, parse_file) at h)) in
          (
            ap (λ (x : GroupedFile). x.entry) same,
            ap (λ (x : GroupedFile). x.stem) same,
            cc (ap (λ (x : GroupedFile). x.lossless) same, ap (λ (x : GroupedFile). x.codec) same),
            cc (ap (λ (x : GroupedFile). x.codec) same, k),
          )
    ]

add_parsed-IsParsed :
    (rt : Runtime) (o : Option GroupedFile) (rest : List GroupedFile)
    → ((f : GroupedFile) → o ≡ some f → IsParsed rt f)
    → All (IsParsed rt) rest
    → All (IsParsed rt) (add_parsed o rest)
add_parsed-IsParsed rt none rest h hs = hs
add_parsed-IsParsed rt (some f) rest h hs = (h f refl, hs)

-- Every file of the list comes from parsing its own entry.
pub parse_files-IsParsed :
    (rt : Runtime) (entries : List AudioEntry) → All (IsParsed rt) (parse_files rt entries)
unfolding parse_files
parse_files-IsParsed rt [] = tt
parse_files-IsParsed rt (e ∷ es) =
    add_parsed-IsParsed rt (parse_file rt e) (parse_files rt es)
      (λ f k. ap (parse_file rt) (parse_file_inv rt e f k).0 ∙ k) (parse_files-IsParsed rt es)

pub parsed-SamePath :
    (rt : Runtime) (files : List GroupedFile) → All (IsParsed rt) files → SamePath files
parsed-SamePath rt files parsed f f' m m' e =
    let (_, s, _, _) = parse_file_inv rt f.entry f (All-mem (IsParsed rt) files parsed m) in
    let (_, s', _, _) = parse_file_inv rt f'.entry f' (All-mem (IsParsed rt) files parsed m') in
    s ∙ ap (stem_key rt) e ∙ sym s'

ext_nil : GoPath.ext [] ≡ []
unfolding GoPath.ext
ext_nil = refl

codec_nil : codec_by_ext [] ≡ none
unfolding codec_by_ext bytes_beq
codec_nil = refl

no_path :
    (rt : Runtime) → Laws rt → (f : GroupedFile) → IsParsed rt f → bytes_beq f.path_posix [] ≡ false
no_path rt laws f h = elim (Bool-cases (bytes_beq f.path_posix [])) [
  | inr e ↦ e
  | inl e ↦
      let (_, _, _, k) = parse_file_inv rt f.entry f h in
      let empty = (bytes_beq_iff f.path_posix []).0 e in
      cc (rw (empty, ext_nil, laws.lower_empty, codec_nil) at k)
]

-- No file that parses has the empty path.
pub parsed-named :
    (rt : Runtime)
    → Laws rt
    → (files : List GroupedFile) → All (IsParsed rt) files
    → observed [] files ≡ false
unfolding any_b
parsed-named rt laws [] h = refl
parsed-named rt laws (f ∷ fs) (h, hs) =
    ground (arith, no_path rt laws f h, parsed-named rt laws fs hs)
