-- ===== src/Execute/Facts.antt =====
-- component_paths.go and the rest of component_precheck.go: the checks that read the disk, and the
-- whole precheck. They read one world and change nothing.
use dorganizer.Prelude.{
  ◌+◌, ◌-◌, ◌*◌, ◌^◌, Bool, true, false, ◌&&◌, ◌||◌, not, List, [], ◌∷◌, Option, none, some, Bytes,
  codes, if◌then◌else◌, is_nil, is_some, map, filter_b, has_prefix, ◌==◌, bytes_eq, leb, ltb,
}
use dorganizer.Prelude.Int.{ℤ, pos, negsuc, leb_ℤ, int_eq, pos_part, neg_part, sub_ℕ}
use dorganizer.Prelude.Member.{elem}
use dorganizer.GoPath
use dorganizer.GoPath.{slash}
use dorganizer.Pathnorm.{Resolver, is_within_root, is_resolved_within_root, leads_out}
use dorganizer.Reconcile.Types.{DesiredProfile, FileTuple}
use dorganizer.Reconcile.Outcome.{
  Resolution, encode, VariantDecision, ComponentOutcome, all_decisions,
}
use dorganizer.Execute.Toolkit.{FileInfo, Lstat, missing, unreadable, found, Toolkit}
use dorganizer.Execute.Plan.{
  Code, invalid_request, target_conflict, file_changed, path_unsafe, tools_unavailable, native_path,
  posix_form, PlannedEncode, PlannedRemove, PlannedComponent, Result, ok, refuse, ◌>>=◌, ◌>>◌,
  guard, validate_component, encode_specs_by_extension, collect_operations, validate_conflicts,
  validate_dependencies,
}

pub data DeleteMode : Type 0 where
  soft hard : DeleteMode
  other_delete : Bytes → DeleteMode

pub record ComponentRunRequest : Type 0 where
  pub root : Bytes
  pub component : ComponentOutcome
  pub specs : DesiredProfile
  pub delete_mode : DeleteMode
  pub recovery_root : Bytes  -- empty for the member root

abbrev known_delete_mode : DeleteMode → Bool
known_delete_mode (other_delete _) = false
known_delete_mode _ = true

abbrev is_absolute : Bytes → Bool
is_absolute p = has_prefix p (slash ∷ [])

abbrev is_directory : Lstat → Bool
is_directory (found info) = info.is_dir
is_directory _ = false

abbrev is_missing : Lstat → Bool
is_missing missing = true
is_missing _ = false

abbrev is_link : Lstat → Bool
is_link (found info) = info.is_symlink
is_link _ = false

abbrev is_unreadable : Lstat → Bool
is_unreadable unreadable = true
is_unreadable _ = false

abbrev pub or_refuse : {A : Type 0} → Option A → Code → Result A
or_refuse none c = refuse c
or_refuse (some a) c = ok a

-- `filepath.Rel` answers, and stays below its base.
abbrev pub rel_below : Option Bytes → Option Bytes
rel_below none = none
rel_below (some rel) = if rel == codes "." || leads_out rel then none else some rel

-- The frozen tuple of a path: the last one of the list, as in the map that the source fills.
unfoldable pub frozen_at : Bytes → List FileTuple → Option FileTuple
frozen_at p [] = none
frozen_at p (t ∷ ts) = elim (frozen_at p ts) [
  | some later ↦ some later
  | none ↦ if posix_form (native_path t.path) == p then some t else none
]

abbrev is_encode_decision : Resolution → Bool
is_encode_decision encode = true
is_encode_decision _ = false

-- The targets of the plan's materialize decisions.
unfoldable pub declared_targets : List VariantDecision → List Bytes
unfolding all_decisions
declared_targets variants =
    map (λ d. posix_form (native_path d.target_path))
      (filter_b (λ d. is_encode_decision d.resolution && not (is_nil d.target_path))
        (all_decisions variants))

-- `info.ModTime().Sub(time.Unix(mtime, 0))` in nanoseconds: a difference beyond int64 is cut off.
unfoldable pub drift : ℤ → ℤ → ℤ
drift mtime seconds =
    let d =
      sub_ℕ (pos_part mtime + 1000000000 * neg_part seconds)
        (neg_part mtime + 1000000000 * pos_part seconds) in
    if leb (2 ^ 63) (pos_part d)
    then pos (2 ^ 63 - 1)
    else if ltb (2 ^ 63) (neg_part d)
    then negsuc (2 ^ 63 - 1)
    else d

-- `if delta < 0 { delta = -delta }`, which leaves the least int64 as it is, then the comparison.
unfoldable pub drifted : ℤ → Bool
drifted (pos n) = ltb 1000000000 n
drifted (negsuc n) = ltb 1000000000 (n + 1) && ltb (n + 1) (2 ^ 63)

module _ {W : Type 0} (tk : Toolkit W) (w : W) where
  abbrev pub resolver : Resolver
  resolver = record {
    absolute = λ p. some p;
    eval_symlinks = λ p. tk.eval_symlinks p w;
    rel = tk.rel;
    on_windows = false;
    to_lower = tk.to_lower;
  }

  abbrev resolves_within : Bytes → Bytes → Bool
  resolves_within root p = elim (is_resolved_within_root resolver root p) [
    | none ↦ false
    | some within ↦ within
  ]

  -- A directory behind a path that resolves.
  abbrev real_directory : Bytes → Result Bytes
  real_directory p = do
    real ← or_refuse (tk.eval_symlinks p w) invalid_request
    guard (is_directory (tk.lstat real w)) invalid_request
    ok real

  unfoldable pub resolve_recovery_root : ComponentRunRequest → Bytes → Result Bytes
  resolve_recovery_root req abs_root =
      let recovery = native_path req.recovery_root in
      if is_nil req.recovery_root then ok abs_root else do
        guard (is_absolute recovery) invalid_request
        _real ← real_directory recovery
        ok recovery

  unfoldable pub new_planned_component : ComponentRunRequest → Result PlannedComponent
  unfolding resolve_recovery_root validate_component
  new_planned_component req = do
    guard (known_delete_mode req.delete_mode) invalid_request
    guard (not (is_nil req.root)) invalid_request
    let abs_root = native_path req.root
    guard (is_absolute abs_root) invalid_request
    real_root ← real_directory abs_root
    recovery_root ← resolve_recovery_root req abs_root
    validate_component req.component
    ok (record {
      abs_root = abs_root;
      real_root = real_root;
      recovery_root = recovery_root;
      encodes = [];
      removes = [];
    })

  -- The loop over the components of a path: it ends at the first that is not there.
  unfoldable pub no_links : Bytes → List Bytes → Result (Unit {0})
  no_links current [] = ok tt
  no_links current (c ∷ cs) =
      let next = GoPath.join (current ∷ c ∷ []) in
      let info = tk.lstat next w in
      let deeper = no_links next cs in
      if is_missing info
      then ok tt
      else if is_unreadable info || is_link info
      then refuse path_unsafe
      else deeper

  unfoldable pub check_path : PlannedComponent → Bytes → Result (Unit {0})
  unfolding no_links
  check_path p native = do
    guard (is_absolute native) path_unsafe
    let posix = posix_form native
    let root = posix_form p.abs_root
    guard (not (posix == root) && is_within_root tk.to_lower root posix) path_unsafe
    rel ← or_refuse (rel_below (tk.rel p.abs_root native)) path_unsafe
    no_links p.real_root (GoPath.split_on slash rel)

  -- The source checks a path once; checking it again answers the same.
  unfoldable pub check_all : PlannedComponent → List Bytes → Result (Unit {0})
  unfolding check_path
  check_all p [] = ok tt
  check_all p (raw ∷ raws) = do check_path p (native_path raw); check_all p raws

  unfoldable pub check_paths : PlannedComponent → Result (Unit {0})
  unfolding check_all
  check_paths p = do
    check_all p (map (λ enc. enc.source) p.encodes)
    check_all p (map (λ enc. enc.target) p.encodes)
    check_all p (map (λ r. r.source) p.removes)

  abbrev same_facts : FileTuple → FileInfo → Bool
  same_facts t info =
      info.is_regular
      && ((leb_ℤ t.size (pos 0) || info.size == t.size)
          && (leb_ℤ t.mtime (pos 0) || not (drifted (drift info.mtime t.mtime))))

  abbrev has_facts : FileTuple → Lstat → Bool
  has_facts t (found info) = same_facts t info
  has_facts t _ = false

  unfoldable pub check_frozen_file : PlannedComponent → List FileTuple → Bytes → Result (Unit {0})
  unfolding frozen_at drift drifted
  check_frozen_file p frozen native = do
    let posix = posix_form native
    tuple ← or_refuse (frozen_at posix frozen) file_changed
    guard (has_facts tuple (tk.lstat native w)) file_changed
    guard (resolves_within (posix_form p.abs_root) posix) path_unsafe

  unfoldable pub check_free_target : PlannedComponent → Bytes → Result (Unit {0})
  check_free_target p native = do
    guard (is_missing (tk.lstat native w)) target_conflict
    guard (is_directory (tk.lstat (GoPath.dir native) w)) target_conflict
    guard (resolves_within (posix_form p.abs_root) (posix_form (GoPath.dir native))) path_unsafe

  -- One round of the first loop of `checkDiskFacts`: it marks an in-place replacement.
  unfoldable pub check_encode :
      PlannedComponent → List FileTuple → List Bytes → PlannedEncode → Result PlannedEncode
  unfolding check_frozen_file check_free_target
  check_encode p frozen declared enc = do
    check_frozen_file p frozen enc.source
    if is_some (frozen_at (posix_form enc.target) frozen)
        then (do
          guard (elem (posix_form enc.target) declared) target_conflict
          check_frozen_file p frozen enc.target
          ok (record enc { replace = true }))
        else (do check_free_target p enc.target; ok enc)

  unfoldable pub check_encodes :
      PlannedComponent
      → List FileTuple
      → List Bytes
      → List PlannedEncode
      → Result (List PlannedEncode)
  unfolding check_encode
  check_encodes p frozen declared [] = ok []
  check_encodes p frozen declared (enc ∷ encs) = do
    enc' ← check_encode p frozen declared enc
    encs' ← check_encodes p frozen declared encs
    ok (enc' ∷ encs')

  unfoldable pub check_removes :
      PlannedComponent → List FileTuple → List PlannedRemove → Result (Unit {0})
  unfolding check_frozen_file
  check_removes p frozen [] = ok tt
  check_removes p frozen (r ∷ rs) = do
    check_frozen_file p frozen r.source
    check_removes p frozen rs

  unfoldable pub check_disk_facts : ComponentOutcome → PlannedComponent → Result PlannedComponent
  unfolding check_encodes check_removes declared_targets
  check_disk_facts c p = do
    encodes ← check_encodes p c.files (declared_targets c.variants) p.encodes
    check_removes p c.files p.removes
    ok (record p { encodes = encodes })

  unfoldable pub precheck_component_request : ComponentRunRequest → Result PlannedComponent
  unfolding new_planned_component check_paths check_disk_facts
  precheck_component_request req = do
    fresh ← new_planned_component req
    specs ← encode_specs_by_extension req.specs
    plan ←
        collect_operations tk.to_lower req.component.component_id req.component.operations specs
          fresh
    validate_conflicts plan
    validate_dependencies plan
    check_paths plan
    plan' ← check_disk_facts req.component plan
    guard (is_nil plan'.encodes || tk.check_tools w) tools_unavailable
    ok plan'
