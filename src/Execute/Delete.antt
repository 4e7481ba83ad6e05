-- ===== src/Execute/Delete.antt =====
-- component_delete.go: removing one obsolete file, and keeping it below `Delete/`.
use dorganizer.Prelude.{
  ℕ, zero, suc, ◌+◌, Bool, ◌&&◌, not, [], ◌∷◌, ◌++◌, Option, none, some, Bytes, if◌then◌else◌,
  nat_beq,
}
use dorganizer.Prelude.Int.{pos}
use dorganizer.GoPath
use dorganizer.Pathnorm.{recovery_dir_name, is_windows_unc_path, truncate_path_components_to_bytes}
use dorganizer.Reconcile.Plan.{decimal}
use dorganizer.Execute.Toolkit.{FileError, missing, unreadable, found, Toolkit}
use dorganizer.Execute.Plan.{posix_form}
use dorganizer.Execute.Facts.{rel_below}

-- `<stem>.<N><ext>` from the second attempt on.
unfoldable pub recovery_name : Bytes → ℕ → Bytes
unfolding decimal
recovery_name base attempt =
    let e = GoPath.ext base in
    if nat_beq attempt 0
    then base
    else GoPath.trim_suffix base e ++ (b'.' ∷ decimal (pos attempt) ++ e)

abbrev pub max_recovery_name_attempts : ℕ
max_recovery_name_attempts = 100

module _ {W : Type 0} (tk : Toolkit W) where
  -- The loop from one attempt on, with the attempts that are left.
  unfoldable pub free_name : ℕ → ℕ → Bytes → Bytes → W → Option Bytes
  unfolding recovery_name
  free_name zero attempt dir base w = none
  free_name (suc left) attempt dir base w =
      let candidate = GoPath.join (dir ∷ recovery_name base attempt ∷ []) in
      let later = free_name left (attempt + 1) dir base w in
      elim (tk.lstat candidate w) [
        | missing ↦ some candidate
        | unreadable ↦ none
        | found info ↦ later
      ]

  unfoldable pub unique_recovery_path : Bytes → Bytes → W → Option Bytes
  unfolding free_name
  unique_recovery_path dir base w = free_name (max_recovery_name_attempts + 1) 0 dir base w

  -- The attempts that are left; only a locked file is tried again.
  unfoldable pub rename_with_lock_retry : ℕ → Bytes → Bytes → W → Option FileError × W
  rename_with_lock_retry zero a b w = tk.rename a b w
  rename_with_lock_retry (suc left) a b w =
      let (r, w') = tk.rename a b w in
      let again = rename_with_lock_retry left a b w' in
      elim r [
        | none ↦ (none, w')
        | some e ↦ if not e.permission && e.locked then again else (some e, w')
      ]

  abbrev pub finish_move : Bytes → Option FileError × W → Option Bytes × W
  finish_move dest (none, w) = (some dest, w)
  finish_move dest (some e, w) = (none, w)

  -- The directory below `Delete/` that mirrors the file's own.
  unfoldable pub recovery_dir : Bytes → Bytes → Bytes
  recovery_dir recovery_root rel =
      let d = GoPath.dir rel in
      GoPath.join (
        recovery_root
        ∷ recovery_dir_name
        ∷ (if is_windows_unc_path recovery_root
            then truncate_path_components_to_bytes tk.rune_lens d 214
            else d)
        ∷ [])

  -- Where the file went, if it was moved.
  unfoldable pub soft_remove : Bytes → Bytes → W → Option Bytes × W
  unfolding unique_recovery_path rename_with_lock_retry recovery_dir
  soft_remove recovery_root source w = elim (rel_below (tk.rel recovery_root source)) [
    | none ↦ (none, w)
    | some rel ↦
        let target_dir = recovery_dir recovery_root rel in
        let (made, w') = tk.mkdir_all target_dir w in
        if made
        then elim (unique_recovery_path target_dir (GoPath.base source) w') [
          | none ↦ (none, w')
          | some dest ↦ finish_move dest (rename_with_lock_retry 2 source dest w')
        ]
        else (none, w')
  ]

  -- What a removal answers: `none` where it failed, else the recovery path, which is empty for a
  -- hard removal.
  abbrev hard_outcome : Option FileError × W → Option Bytes × W
  hard_outcome (none, w) = (some [], w)
  hard_outcome (some e, w) = (none, w)

  abbrev soft_outcome : Option Bytes × W → Option Bytes × W
  soft_outcome (none, w) = (none, w)
  soft_outcome (some dest, w) = (some (posix_form dest), w)

  unfoldable pub remove_obsolete : Bytes → Bytes → Bool → W → Option Bytes × W
  unfolding soft_remove
  remove_obsolete recovery_root source is_soft w =
      if is_soft
      then soft_outcome (soft_remove recovery_root source w)
      else hard_outcome (tk.remove source w)
