-- ===== src/Execute/Run/Accounts.antt =====
-- What a commit reports of its operations, whatever the tools and the disk do.
use dorganizer.Prelude.{
  Bool, true, false, List, [], ◌∷◌, ◌++◌, map, none, some, Bytes, is_nil, length, drop,
  append_assoc, map-append, ◌≡◌, ◌≢◌, refl, sym, ◌∙◌, arith, Bool-cases, Option-cases, inl, inr,
}
use dorganizer.Execute.Toolkit.{Toolkit}
use dorganizer.Execute.Plan.{
  no_stage, validate, commit, remove, canceled_code, validate_failed, commit_failed, delete_failed,
  ComponentError, posix_form, PlannedEncode, PlannedRemove, PlannedComponent,
}
use dorganizer.Execute.Delete.{remove_obsolete}
use dorganizer.Execute.Commit.{Landing, commit_output}
use dorganizer.Execute.Run.{
  RunStatus, succeeded, failed, canceled, RunResult, Cause, nothing_done, remaining_ops, stop_run,
  error_at, validate_outputs, validate_staged_output, commit_outputs, note_landing, remove_files,
  note_removal, commit_component,
}

abbrev pub targets_of : List PlannedEncode → List Bytes
targets_of encodes = map (λ enc. posix_form enc.target) encodes

abbrev pub sources_of : List PlannedRemove → List Bytes
sources_of removes = map (λ r. posix_form r.source) removes

-- The encodes and removals that a result reports as done, a prefix of each, and the others.
pub record Accounted (plan : PlannedComponent) (out : RunResult × Cause) : Type 0 where
  pub landed : List PlannedEncode
  pub waiting : List PlannedEncode
  pub gone : List PlannedRemove
  pub staying : List PlannedRemove
  pub encodes_split : plan.encodes ≡ landed ++ waiting
  pub removes_split : plan.removes ≡ gone ++ staying
  pub committed_are : out.0.committed ≡ targets_of landed
  pub removed_are : out.0.removed ≡ sources_of gone
  pub in_order : is_nil gone ≡ false → waiting ≡ []
  pub finished :
      out.1 ≡ none
      → (waiting ≡ []) × (staying ≡ []) × (out.0.remaining ≡ []) × (out.0.status ≡ succeeded)
  pub stopped :
      (e : ComponentError)
      → out.1 ≡ some e
      → (out.0.remaining ≡ targets_of waiting ++ sources_of staying)
        × (out.0.status ≢ succeeded)
        × (out.0.stage ≡ e.stage)

-- A result that reports a prefix of the operations and nothing else yet.
pub record Reports (plan : PlannedComponent) (landed waiting : List PlannedEncode)
    (gone staying : List PlannedRemove) (r : RunResult) : Type 0 where
  pub encodes_split : plan.encodes ≡ landed ++ waiting
  pub removes_split : plan.removes ≡ gone ++ staying
  pub committed_are : r.committed ≡ targets_of landed
  pub removed_are : r.removed ≡ sources_of gone
  pub in_order : is_nil gone ≡ false → waiting ≡ []
  pub none_left : r.remaining ≡ []
  pub so_far : r.status ≡ succeeded

drop_done {ℓ κ} :
    {A : Type ℓ} {B : Type κ} (f : A → B) (xs ys : List A)
    → drop (length (map f xs)) (xs ++ ys) ≡ ys
drop_done f [] ys = refl
drop_done f (x ∷ xs) ys = drop_done f xs ys

remaining_lem :
    (plan : PlannedComponent) (landed waiting : List PlannedEncode)
    (gone staying : List PlannedRemove) (r : RunResult)
    → Reports plan landed waiting gone staying r
    → remaining_ops plan (length r.committed) (length r.removed)
      ≡ targets_of waiting ++ sources_of staying
unfolding remaining_ops
remaining_lem plan landed waiting gone staying r h =
    rw (h.committed_are, h.removed_are, h.encodes_split, h.removes_split)
      (rw
        (
          drop_done (λ (enc : PlannedEncode). posix_form enc.target) landed waiting,
          drop_done (λ (x : PlannedRemove). posix_form x.source) gone staying,
        )
        refl)

module _ {W : Type 0} (tk : Toolkit W) (plan : PlannedComponent) where
  stop_run-Accounted :
      (landed waiting : List PlannedEncode) (gone staying : List PlannedRemove) (r : RunResult)
      (status : RunStatus) (cause : ComponentError) (w : W)
      → status ≢ succeeded
      → Reports plan landed waiting gone staying r
      → Accounted plan (stop_run tk plan r status cause w).0
  unfolding stop_run
  stop_run-Accounted landed waiting gone staying r status cause w ne h = record {
    landed = landed;
    waiting = waiting;
    gone = gone;
    staying = staying;
    encodes_split = h.encodes_split;
    removes_split = h.removes_split;
    committed_are = h.committed_are;
    removed_are = h.removed_are;
    in_order = h.in_order;
    finished = λ e. cc;
    stopped = λ e k. (remaining_lem plan landed waiting gone staying r h, ne, cc k);
  }

  Reports-removal :
      (landed : List PlannedEncode) (gone : List PlannedRemove) (x : PlannedRemove)
      (xs : List PlannedRemove) (p : Bytes) (r : RunResult)
      → Reports plan landed [] gone (x ∷ xs) r
      → Reports plan landed [] (gone ++ x ∷ []) xs (note_removal tk plan x p r)
  Reports-removal landed gone x xs p r h = record {
    encodes_split = h.encodes_split;
    removes_split = h.removes_split ∙ sym (append_assoc gone (x ∷ []) xs);
    committed_are = h.committed_are;
    removed_are =
        rw (h.removed_are, map-append (λ (y : PlannedRemove). posix_form y.source) gone (x ∷ []))
          refl;
    in_order = λ _. refl;
    none_left = h.none_left;
    so_far = h.so_far;
  }

  remove_files-Accounted :
      (is_soft : Bool) (landed : List PlannedEncode) (gone staying : List PlannedRemove)
      (r : RunResult) (w : W)
      → Reports plan landed [] gone staying r
      → Accounted plan (remove_files tk plan is_soft staying r w).0
  unfolding remove_files
  remove_files-Accounted is_soft landed gone [] r w h = record {
    landed = landed;
    waiting = [];
    gone = gone;
    staying = [];
    encodes_split = h.encodes_split;
    removes_split = h.removes_split;
    committed_are = h.committed_are;
    removed_are = h.removed_are;
    in_order = h.in_order;
    finished = λ e. (refl, refl, h.none_left, h.so_far);
    stopped = λ e k. cc;
  }
  remove_files-Accounted is_soft landed gone (x ∷ xs) r w h =
      let w1 = (tk.canceled w).1 in
      let removal = remove_obsolete tk plan.recovery_root x.source is_soft w1 in
      elim (Bool-cases (tk.canceled w).0) [
        | inl e ↦
            rw (e, remove_files)
              (stop_run-Accounted landed [] gone (x ∷ xs) r canceled (error_at remove canceled_code)
                w1 (λ q. cc) h)
        | inr e ↦ elim (Option-cases removal.0) [
          | inl k ↦
              rw (remove_files, e, k)
                (stop_run-Accounted landed [] gone (x ∷ xs) r failed (error_at remove delete_failed)
                  removal.1 (λ q. cc) h)
          | inr (p, k) ↦
              rw (remove_files, e, k)
                (remove_files-Accounted is_soft landed (gone ++ x ∷ []) xs
                  (note_removal tk plan x p r) removal.1 (Reports-removal landed gone x xs p r h))
        ]
      ]

  Reports-landing :
      (landed : List PlannedEncode) (x : PlannedEncode) (xs : List PlannedEncode) (l : Landing)
      (r : RunResult)
      → l.landed ≡ true
      → Reports plan landed (x ∷ xs) [] plan.removes r
      → Reports plan (landed ++ x ∷ []) xs [] plan.removes (note_landing tk plan x l r)
  Reports-landing landed x xs l r e h = record {
    encodes_split = h.encodes_split ∙ sym (append_assoc landed (x ∷ []) xs);
    removes_split = refl;
    committed_are =
        rw
          (
            e,
            h.committed_are,
            map-append (λ (y : PlannedEncode). posix_form y.target) landed (x ∷ []),
          )
          refl;
    removed_are = h.removed_are;
    in_order = λ q. cc;
    none_left = h.none_left;
    so_far = h.so_far;
  }

  Reports-no_landing :
      (landed waiting : List PlannedEncode) (x : PlannedEncode) (l : Landing) (r : RunResult)
      → l.landed ≡ false
      → Reports plan landed waiting [] plan.removes r
      → Reports plan landed waiting [] plan.removes (note_landing tk plan x l r)
  Reports-no_landing landed waiting x l r e h = record {
    encodes_split = h.encodes_split;
    removes_split = refl;
    committed_are = rw e h.committed_are;
    removed_are = h.removed_are;
    in_order = λ q. cc;
    none_left = h.none_left;
    so_far = h.so_far;
  }

  -- An output that has not landed is an error.
  pub commit_output_fails :
      (x : PlannedEncode) (is_soft : Bool) (w : W)
      → (commit_output tk plan.recovery_root x is_soft w).0.failed ≡ false
      → (commit_output tk plan.recovery_root x is_soft w).0.landed ≡ true
  unfolding commit_output
  commit_output_fails x is_soft w h = ground arith

  failed_landing :
      (landed : List PlannedEncode) (x : PlannedEncode) (xs : List PlannedEncode) (l : Landing)
      (r : RunResult) (w : W)
      → Reports plan landed (x ∷ xs) [] plan.removes r
      → Accounted plan
          (stop_run tk plan (note_landing tk plan x l r) failed (error_at commit commit_failed) w).0
  failed_landing landed x xs l r w h = elim (Bool-cases l.landed) [
    | inl e ↦
        stop_run-Accounted (landed ++ x ∷ []) xs [] plan.removes _ failed _ w (λ q. cc)
          (Reports-landing landed x xs l r e h)
    | inr e ↦
        stop_run-Accounted landed (x ∷ xs) [] plan.removes _ failed _ w (λ q. cc)
          (Reports-no_landing landed (x ∷ xs) x l r e h)
  ]

  commit_outputs-Accounted :
      (is_soft : Bool) (landed waiting : List PlannedEncode) (r : RunResult) (w : W)
      → Reports plan landed waiting [] plan.removes r
      → Accounted plan
          (commit_outputs tk plan is_soft waiting r (remove_files tk plan is_soft plan.removes) w).0
  unfolding commit_outputs
  commit_outputs-Accounted is_soft landed [] r w h =
      remove_files-Accounted is_soft landed [] plan.removes r w h
  commit_outputs-Accounted is_soft landed (x ∷ xs) r w h =
      let w1 = (tk.canceled w).1 in
      let l = commit_output tk plan.recovery_root x is_soft w1 in
      elim (Bool-cases (tk.canceled w).0) [
        | inl e ↦
            rw (e, commit_outputs)
              (stop_run-Accounted landed (x ∷ xs) [] plan.removes r canceled
                (error_at commit canceled_code) w1 (λ q. cc) h)
        | inr e ↦ elim (Bool-cases l.0.failed) [
          | inl k ↦ rw (commit_outputs, e, k) (failed_landing landed x xs l.0 r l.1 h)
          | inr k ↦
              rw (commit_outputs, e, k)
                (commit_outputs-Accounted is_soft (landed ++ x ∷ []) xs
                  (note_landing tk plan x l.0 r) l.1
                  (Reports-landing landed x xs l.0 r (commit_output_fails x is_soft w1 k) h))
        ]
      ]

  validate_outputs-Accounted :
      (next : RunResult → W → (RunResult × Cause) × W) (r : RunResult)
      → Reports plan [] plan.encodes [] plan.removes r
      → ((w : W) → Accounted plan (next r w).0)
      → (encs : List PlannedEncode) (w : W)
      → Accounted plan (validate_outputs tk plan encs r next w).0
  unfolding validate_outputs
  validate_outputs-Accounted next r h follows [] w = follows w
  validate_outputs-Accounted next r h follows (x ∷ xs) w =
      let w1 = (tk.canceled w).1 in
      let v = validate_staged_output tk x.temp x.spec w1 in
      let late = tk.canceled v.1 in
      elim (Bool-cases (tk.canceled w).0) [
        | inl e ↦
            rw (e, validate_outputs)
              (stop_run-Accounted [] plan.encodes [] plan.removes r canceled
                (error_at validate canceled_code) w1 (λ q. cc) h)
        | inr e ↦ elim (Bool-cases v.0) [
          | inl k ↦ rw (validate_outputs, e, k) (validate_outputs-Accounted next r h follows xs v.1)
          | inr k ↦ elim (Bool-cases late.0) [
            | inl m ↦
                rw (validate_outputs, e, k, m)
                  (stop_run-Accounted [] plan.encodes [] plan.removes r canceled
                    (error_at validate canceled_code) late.1 (λ q. cc) h)
            | inr m ↦
                rw (validate_outputs, e, k, m)
                  (stop_run-Accounted [] plan.encodes [] plan.removes r failed
                    (error_at validate validate_failed) late.1 (λ q. cc) h)
          ]
        ]
      ]

  -- Whatever the tools answer, a commit reports as committed a prefix of the targets and as removed
  -- a prefix of the obsolete files, which is empty unless every output was committed. Without an
  -- error everything is done and nothing remains; with one the status is not success, the stage is
  -- that of the error, and what remains is exactly the rest, in the frozen order.
  pub commit_component-Accounted :
      (is_soft : Bool) (w : W) → Accounted plan (commit_component tk plan is_soft w).0
  unfolding commit_component
  commit_component-Accounted is_soft w =
      let start = nothing_done succeeded no_stage in
      let fresh : Reports plan [] plan.encodes [] plan.removes start = record {
        encodes_split = refl;
        removes_split = refl;
        committed_are = refl;
        removed_are = refl;
        in_order = λ q. cc;
        none_left = refl;
        so_far = refl;
      } in
      validate_outputs-Accounted _ start fresh
        (λ v. commit_outputs-Accounted is_soft [] plan.encodes start v fresh) plan.encodes w
