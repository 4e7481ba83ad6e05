-- ===== src/Execute/Moves.antt =====
-- A rename and a soft removal as moves on the disk, given what the file system documents.
use dorganizer.Prelude.{
  ℕ, zero, suc, ◌+◌, false, ◌&&◌, not, Option, none, some, Bytes, bytes_beq, bytes_beq_iff,
  if◌then◌else◌, ◌≡◌, refl, sym, ◌∙◌, arith, Bool-cases, Option-cases, inl, inr,
}
use dorganizer.GoPath
use dorganizer.Execute.Toolkit.{FileError, missing, Toolkit, DiskLaws}
use dorganizer.Execute.Facts.{rel_below}
use dorganizer.Execute.Delete.{
  free_name, unique_recovery_path, rename_with_lock_retry, recovery_dir, soft_remove,
  max_recovery_name_attempts, finish_move,
}

module _ {W : Type 0} (tk : Toolkit W) (disk : W → Bytes → Option Bytes)
    (laws : DiskLaws tk disk) where
  -- A name that the search answers is free.
  free_name-missing :
      (left attempt : ℕ) (dir base : Bytes) (w : W) (dest : Bytes)
      → free_name tk left attempt dir base w ≡ some dest
      → tk.lstat dest w ≡ missing
  unfolding free_name
  free_name-missing zero attempt dir base w dest h = cc
  free_name-missing (suc left) attempt dir base w dest h =
      ground (arith, free_name-missing left (attempt + 1) dir base w dest)

  pub apart_by :
      (w : W) (a b x : Bytes) → disk w a ≡ some x → disk w b ≡ none → bytes_beq a b ≡ false
  apart_by w a b x h k = elim (Bool-cases (bytes_beq a b)) [
    | inl e ↦ cc ((bytes_beq_iff a b).0 e)
    | inr e ↦ e
  ]

  -- A move from `a` to `b` has happened or nothing has.
  abbrev pub Moved : Bytes → Bytes → W → Option FileError → W → Type 0
  Moved a b w none v =
      (p : Bytes)
      → disk v p ≡ (if bytes_beq p b then disk w a else if bytes_beq p a then none else disk w p)
  Moved a b w (some e) v = (p : Bytes) → disk v p ≡ disk w p

  pub rename-Moved :
      (a b : Bytes) (w : W)
      → bytes_beq a b ≡ false
      → Moved a b w (tk.rename a b w).0 (tk.rename a b w).1
  rename-Moved a b w ne = elim (Option-cases (tk.rename a b w).0) [
    | inl e ↦ rw e (laws.rename_done a b w ne e)
    | inr (x, e) ↦ rw e (laws.rename_failed a b w x e)
  ]

  pub Moved-from :
      (a b : Bytes) (w w0 : W) (r : Option FileError) (v : W)
      → ((p : Bytes) → disk w p ≡ disk w0 p)
      → Moved a b w r v
      → Moved a b w0 r v
  Moved-from a b w w0 none v same h = λ p. ground (arith, h p, same a, same p)
  Moved-from a b w w0 (some e) v same h = λ p. h p ∙ same p

  retry-Moved :
      (left : ℕ) (a b : Bytes) (w w0 : W)
      → bytes_beq a b ≡ false
      → ((p : Bytes) → disk w p ≡ disk w0 p)
      → Moved a b w0
          (rename_with_lock_retry tk left a b w).0
          (rename_with_lock_retry tk left a b w).1
  unfolding rename_with_lock_retry
  retry-Moved zero a b w w0 ne same =
      Moved-from a b w w0 (tk.rename a b w).0 (tk.rename a b w).1 same (rename-Moved a b w ne)
  retry-Moved (suc left) a b w w0 ne same =
      let v = (tk.rename a b w).1 in
      elim (Option-cases (tk.rename a b w).0) [
        | inl e ↦
            rw (e, rename_with_lock_retry)
              (Moved-from a b w w0 none v same (laws.rename_done a b w ne e))
        | inr (x, e) ↦
            let kept : (p : Bytes) → disk v p ≡ disk w0 p =
              λ p. laws.rename_failed a b w x e p ∙ same p in
            elim (Bool-cases (not x.permission && x.locked)) [
              | inl k ↦ rw (rename_with_lock_retry, e, k) (retry-Moved left a b v w0 ne kept)
              | inr k ↦ rw (rename_with_lock_retry, e, k) kept
            ]
      ]

  -- The source has gone to a free name, or nothing has changed.
  abbrev pub SoftMoved : Bytes → W → Option Bytes × W → Type 0
  SoftMoved source w (none, v) = (p : Bytes) → disk v p ≡ disk w p
  SoftMoved source w (some dest, v) = (disk w dest ≡ none) × Moved source dest w none v

  finish_move-SoftMoved :
      (source dest : Bytes) (w : W) (r : Option FileError × W)
      → disk w dest ≡ none
      → Moved source dest w r.0 r.1
      → SoftMoved source w (finish_move tk dest r)
  finish_move-SoftMoved source dest w (none, v) free h = (free, h)
  finish_move-SoftMoved source dest w (some e, v) free h = h

  pub soft_remove-SoftMoved :
      (root source : Bytes) (w : W) (old : Bytes)
      → disk w source ≡ some old
      → SoftMoved source w (soft_remove tk root source w)
  unfolding soft_remove unique_recovery_path
  soft_remove-SoftMoved root source w old h = elim (Option-cases (rel_below (tk.rel root source))) [
    | inl e ↦ rw (soft_remove, e) (λ p. refl)
    | inr (rel, e) ↦
        let target_dir = recovery_dir tk root rel in
        let v = (tk.mkdir_all target_dir w).1 in
        let same = laws.mkdir_keeps target_dir w in
        elim (Bool-cases (tk.mkdir_all target_dir w).0) [
          | inr m ↦ rw (soft_remove, e, m) same
          | inl m ↦
              elim (Option-cases (unique_recovery_path tk target_dir (GoPath.base source) v)) [
                | inl k ↦ rw (soft_remove, e, m, k) same
                | inr (dest, k) ↦
                    let absent = laws.lstat_missing dest v (
                      free_name-missing (max_recovery_name_attempts + 1) 0 target_dir
                        (GoPath.base source) v dest k) in
                    let free = sym (same dest) ∙ absent in
                    rw (soft_remove, e, m, k)
                      (finish_move-SoftMoved source dest w
                        (rename_with_lock_retry tk 2 source dest v) free
                        (retry-Moved 2 source dest v w (apart_by w source dest old h free) same))
              ]
        ]
  ]
