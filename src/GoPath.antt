-- ===== src/GoPath.antt =====
-- The functions of Go's packages `path` and `strings` that the program calls, over bytes.
use dorganizer.Prelude.{
  ℕ, Bool, ◌&&◌, ◌||◌, not, List, [], ◌∷◌, ◌++◌, Bytes, bytes_beq, codes, nat_beq, if◌then◌else◌,
  is_nil, has_prefix, ◌≡◌, refl,
}
use mathlib.Core.List.{reverse}

abbrev pub slash : ℕ
slash = b'/'

abbrev pub dot : ℕ
dot = b'.'

-- Put a byte in front of the first piece.
abbrev cons_first : ℕ → List Bytes → List Bytes
cons_first c [] = (c ∷ []) ∷ []
cons_first c (p ∷ ps) = (c ∷ p) ∷ ps

-- `strings.Split(s, sep)` at a separator of one byte.
unfoldable pub split_on : ℕ → Bytes → List Bytes
split_on sep [] = [] ∷ []
split_on sep (c ∷ s) =
    let rest = split_on sep s in if nat_beq c sep then [] ∷ rest else cons_first c rest

-- `strings.Join(parts, sep)` at a separator of one byte.
unfoldable pub join_with : ℕ → List Bytes → Bytes
join_with sep [] = []
join_with sep (p ∷ []) = p
join_with sep (p ∷ q ∷ ps) = p ++ sep ∷ join_with sep (q ∷ ps)

-- `strings.TrimPrefix`
unfoldable pub trim_prefix : Bytes → Bytes → Bytes
trim_prefix s [] = s
trim_prefix [] (_ ∷ _) = []
trim_prefix (a ∷ s) (b ∷ p) =
    let rest = trim_prefix s p in if has_prefix (a ∷ s) (b ∷ p) then rest else a ∷ s

-- `strings.TrimSuffix`
unfoldable pub trim_suffix : Bytes → Bytes → Bytes
trim_suffix [] suffix = []
trim_suffix (a ∷ s) suffix =
    let rest = trim_suffix s suffix in if bytes_beq (a ∷ s) suffix then [] else a ∷ rest

-- One step of `path.Clean`: the elements kept so far, the last one first.
unfoldable pub push_segment : Bool → Bytes → List Bytes → List Bytes
push_segment rooted seg [] =
    if is_nil seg || bytes_beq seg (codes ".") || (rooted && bytes_beq seg (codes ".."))
    then []
    else seg ∷ []
push_segment rooted seg (top ∷ out) =
    if is_nil seg || bytes_beq seg (codes ".")
    then top ∷ out
    else if bytes_beq seg (codes "..") && not (bytes_beq top (codes ".."))
    then out
    else seg ∷ top ∷ out

unfoldable pub clean_segments : Bool → List Bytes → List Bytes → List Bytes
clean_segments rooted [] out = out
clean_segments rooted (seg ∷ segs) out = clean_segments rooted segs (push_segment rooted seg out)

-- `path.Clean`
unfoldable pub clean : Bytes → Bytes
unfolding split_on join_with clean_segments push_segment
clean s =
    let rooted = has_prefix s (slash ∷ []) in
    let body = join_with slash (reverse (clean_segments rooted (split_on slash s) [])) in
    let whole = if rooted then slash ∷ body else body in if is_nil whole then codes "." else whole

-- `path.Split`: everything up to the last slash, and what follows it.
unfoldable pub split_last : Bytes → Bytes × Bytes
split_last [] = ([], [])
split_last (c ∷ s) =
    let (dir, file) = split_last s in
    if is_nil dir
    then if nat_beq c slash then (c ∷ [], file) else ([], c ∷ file)
    else (c ∷ dir, file)

-- `path.Dir`
unfoldable pub dir : Bytes → Bytes
unfolding clean split_last
dir s = clean (split_last s).0

unfoldable pub strip_slashes : Bytes → Bytes
strip_slashes [] = []
strip_slashes (c ∷ s) =
    let rest = strip_slashes s in if is_nil rest && nat_beq c slash then [] else c ∷ rest

-- `path.Base`
unfoldable pub base : Bytes → Bytes
unfolding strip_slashes split_last
base s =
    let file = (split_last (strip_slashes s)).1 in
    if is_nil s then codes "." else if is_nil file then codes "/" else file

-- From the last dot of a name on.
unfoldable pub last_dot : Bytes → Bytes
last_dot [] = []
last_dot (c ∷ s) =
    let rest = last_dot s in if is_nil rest then if nat_beq c dot then c ∷ s else [] else rest

-- `path.Ext`
unfoldable pub ext : Bytes → Bytes
unfolding last_dot split_last
ext s = last_dot (split_last s).1

-- The elements from the first non-empty one on.
unfoldable pub drop_empty : List Bytes → List Bytes
drop_empty [] = []
drop_empty (p ∷ ps) = let rest = drop_empty ps in if is_nil p then rest else p ∷ ps

-- `path.Join`
unfoldable pub join : List Bytes → Bytes
unfolding clean join_with drop_empty
join parts = let rest = drop_empty parts in if is_nil rest then [] else clean (join_with slash rest)

clean_examples :
    (clean (codes "/a//b/../c/.") ≡ codes "/a/c")
    × (clean (codes "../x/..") ≡ codes "..")
    × (clean (codes "/../") ≡ codes "/")
    × (clean [] ≡ codes ".")
unfolding clean has_prefix bytes_beq
clean_examples = (refl, refl, refl, refl)

part_examples :
    (dir (codes "/m/cd/01.wav") ≡ codes "/m/cd")
    × (base (codes "/m/cd/01.wav") ≡ codes "01.wav")
    × (ext (codes "/m/c.d/01.tar.wav") ≡ codes ".wav")
    × (join (codes "/m/cd" ∷ codes "01.mp3" ∷ []) ≡ codes "/m/cd/01.mp3")
unfolding dir base ext join has_prefix bytes_beq
part_examples = (refl, refl, refl, refl)
