-- ===== src/Reconcile/Lenient/Steps.antt =====
-- The loops of the relaxed table in closed form.
use dorganizer.Prelude.{
  Bool, ◌||◌, not, List, [], ◌∷◌, ◌++◌, map, Bytes, bytes_beq, filter_b, ◌≡◌, append_assoc,
  append-nil, Bool-cases, inl, inr,
}
use dorganizer.Prelude.Member.{elem}
use dorganizer.Reconcile.Types.{GroupedFile}
use dorganizer.Reconcile.Outcome.{Reason, keep, delete, FileDecision}
use dorganizer.Reconcile.Lenient.{
  StemDecision, add_keep, add_delete, keep_files, delete_rest, obsolete_reason,
}

abbrev pub keep_decision : Bytes → Reason → FileDecision
keep_decision p r = record { path = p; resolution = keep; reason_code = r; target_path = [] }

abbrev pub delete_decision : GroupedFile → FileDecision
delete_decision f = record {
  path = f.path_posix;
  resolution = delete;
  reason_code = obsolete_reason f;
  target_path = [];
}

abbrev pub with_decisions : StemDecision → List FileDecision → StemDecision
with_decisions d more = record d { decisions = d.decisions ++ more }

pub keep_files_lem :
    (reason : GroupedFile → Reason) (fs : List GroupedFile) (d : StemDecision)
    → keep_files reason fs d
      ≡ with_decisions d (map (λ f. keep_decision f.path_posix (reason f)) fs)
unfolding keep_files add_keep
keep_files_lem reason [] d = simp append-nil
keep_files_lem reason (f ∷ fs) d = rw (keep_files_lem reason fs) (simp append_assoc)

-- A file that stays out of the removals.
abbrev pub spared : List Bytes → Bytes → GroupedFile → Bool
spared kept replaced f = elem f.path_posix kept || bytes_beq f.path_posix replaced

pub delete_rest_lem :
    (kept : List Bytes) (replaced : Bytes) (fs : List GroupedFile) (d : StemDecision)
    → delete_rest kept replaced fs d
      ≡ with_decisions d (map delete_decision (filter_b (λ f. not (spared kept replaced f)) fs))
unfolding delete_rest add_delete filter_b
delete_rest_lem kept replaced [] d = simp append-nil
delete_rest_lem kept replaced (f ∷ fs) d = elim (Bool-cases (spared kept replaced f)) [
  | inl e ↦ rw e (delete_rest_lem kept replaced fs d)
  | inr e ↦ rw e (rw (delete_rest_lem kept replaced fs) (simp append_assoc))
]
