-- ===== src/Execute/Run/Untouched.antt =====
-- What a run that stops before its first commit does to the files: nothing but its staging.
use dorganizer.Prelude.{
  Bool, true, false, List, [], ◌∷◌, Option, none, some, Bytes, bytes_beq, is_nil, any_b, ◌≡◌, refl,
  ◌∙◌, arith, Bool-cases, Option-cases, ◌⊎◌, inl, inr,
}
use dorganizer.Execute.Toolkit.{Toolkit, DiskLaws}
use dorganizer.Execute.Plan.{
  Stage, no_stage, precheck, materialize, validate, ComponentError, PlannedEncode, PlannedRemove,
  PlannedComponent, Result, ok, refuse,
}
use dorganizer.Execute.Facts.{ComponentRunRequest}
use dorganizer.Execute.Fresh.{unfit, Fit, aims, precheck-Fit}
use dorganizer.Execute.Delete.{remove_obsolete}
use dorganizer.Execute.Commit.{temp_output_path, commit_output}
use dorganizer.Execute.Run.{
  RunStatus, succeeded, RunResult, Cause, nothing_done, cleanup_temps, stop_run,
  validate_staged_output, validate_outputs, commit_outputs, note_landing, remove_files,
  note_removal, commit_component, discard, encode_one, encode_all, finish_run, run_checked,
  run_component, is_soft_mode,
}

-- A stage before the first change to a file of the library.
abbrev pub is_early : Stage → Bool
is_early precheck = true
is_early materialize = true
is_early validate = true
is_early _ = false

-- The path is staging for none of the encodes.
abbrev pub stages : Bytes → List PlannedEncode → Bool
stages p encs = any_b (λ enc. bytes_beq p enc.temp) encs

nil_cases : (t : Bytes) → (t ≡ []) ⊎ (is_nil t ≡ false)
nil_cases [] = inl refl
nil_cases (x ∷ t) = inr refl

module _ {W : Type 0} (tk : Toolkit W) (disk : W → Bytes → Option Bytes) (laws : DiskLaws tk disk)
    (p : Bytes) where
  removed-same :
      (temp : Bytes) (w : W) → bytes_beq p temp ≡ false → disk (tk.remove temp w).1 p ≡ disk w p
  removed-same temp w ne = elim (Option-cases (tk.remove temp w).0) [
    | inl e ↦ laws.remove_done temp w e p ∙ rw ne refl
    | inr (x, e) ↦ laws.remove_failed temp w x e p
  ]

  cleanup_temps-same :
      (encs : List PlannedEncode) (w : W)
      → stages p encs ≡ false
      → disk (cleanup_temps tk encs w).1 p ≡ disk w p
  unfolding cleanup_temps any_b
  cleanup_temps-same [] w h = refl
  cleanup_temps-same (enc ∷ encs) w h =
      let here : bytes_beq p enc.temp ≡ false = ground arith in
      let there : stages p encs ≡ false = ground arith in
      elim (Bool-cases (is_nil enc.temp)) [
        | inl e ↦ rw (cleanup_temps, e) (cleanup_temps-same encs w there)
        | inr e ↦
            rw (cleanup_temps, e)
              (cleanup_temps-same encs (tk.remove enc.temp w).1 there
                ∙ removed-same enc.temp w here)
      ]

  stop_run-same :
      (plan : PlannedComponent) (r : RunResult) (status : RunStatus) (e : ComponentError) (w : W)
      → stages p plan.encodes ≡ false
      → disk (stop_run tk plan r status e w).1 p ≡ disk w p
  unfolding stop_run
  stop_run-same plan r status e w h = cleanup_temps-same plan.encodes w h

  discard-same :
      (plan : PlannedComponent) (cause : Cause) (w : W)
      → stages p plan.encodes ≡ false
      → disk (discard tk plan cause w).1 p ≡ disk w p
  unfolding discard
  discard-same plan cause w h = cleanup_temps-same plan.encodes w h

  -- A result of an early stage leaves the path as it was.
  abbrev pub Spared : W → (RunResult × Cause) × W → Type 0
  Spared w0 out = is_early out.0.0.stage ≡ true → disk out.1 p ≡ disk w0 p

  module _ (plan : PlannedComponent) (apart : stages p plan.encodes ≡ false) where
    remove_files-later :
        (is_soft : Bool) (rs : List PlannedRemove) (r : RunResult) (w : W)
        → is_early r.stage ≡ false
        → is_early (remove_files tk plan is_soft rs r w).0.0.stage ≡ false
    unfolding remove_files stop_run
    remove_files-later is_soft [] r w h = h
    remove_files-later is_soft (x ∷ rs) r w h = elim (Bool-cases (tk.canceled w).0) [
      | inl e ↦ rw (remove_files, e) refl
      | inr e ↦
          let gone = remove_obsolete tk plan.recovery_root x.source is_soft (tk.canceled w).1 in
          elim (Option-cases gone.0) [
            | inl k ↦ rw (remove_files, e, k) refl
            | inr (q, k) ↦
                rw (remove_files, e, k)
                  (remove_files-later is_soft rs (note_removal tk plan x q r) gone.1 h)
          ]
    ]

    commit_outputs-later :
        (is_soft : Bool) (encs : List PlannedEncode) (r : RunResult) (w : W)
        → is_early r.stage ≡ false
        → is_early
            (commit_outputs tk plan is_soft encs r
              (remove_files tk plan is_soft plan.removes)
              w).0.0.stage
          ≡ false
    unfolding commit_outputs stop_run
    commit_outputs-later is_soft [] r w h = remove_files-later is_soft plan.removes r w h
    commit_outputs-later is_soft (x ∷ encs) r w h = elim (Bool-cases (tk.canceled w).0) [
      | inl e ↦ rw (commit_outputs, e) refl
      | inr e ↦
          let l = commit_output tk plan.recovery_root x is_soft (tk.canceled w).1 in
          elim (Bool-cases l.0.failed) [
            | inl k ↦ rw (commit_outputs, e, k) refl
            | inr k ↦
                rw (commit_outputs, e, k)
                  (commit_outputs-later is_soft encs (note_landing tk plan x l.0 r) l.1 h)
          ]
    ]

    validate_outputs-Spared :
        (next : RunResult → W → (RunResult × Cause) × W) (r : RunResult) (w0 : W)
        → ((w : W) → is_early (next r w).0.0.stage ≡ false)
        → (encs : List PlannedEncode) (w : W) → disk w p ≡ disk w0 p
        → Spared w0 (validate_outputs tk plan encs r next w)
    unfolding validate_outputs validate_staged_output
    validate_outputs-Spared next r w0 later [] w same = λ q. cc (later w)
    validate_outputs-Spared next r w0 later (x ∷ encs) w same =
        let w1 = (tk.canceled w).1 in
        let w2 = (tk.probe x.temp w1).1 in
        let w3 = (tk.canceled w2).1 in
        let same1 : disk w1 p ≡ disk w0 p = laws.canceled_reads w p ∙ same in
        let same2 : disk w2 p ≡ disk w0 p = laws.probe_reads x.temp w1 p ∙ same1 in
        let same3 : disk w3 p ≡ disk w0 p = laws.canceled_reads w2 p ∙ same2 in
        elim (Bool-cases (tk.canceled w).0) [
          | inl e ↦ rw (validate_outputs, e) (λ q. stop_run-same plan r _ _ w1 apart ∙ same1)
          | inr e ↦ elim (Bool-cases (validate_staged_output tk x.temp x.spec w1).0) [
            | inl k ↦
                rw (validate_outputs, e, k) (validate_outputs-Spared next r w0 later encs w2 same2)
            | inr k ↦ elim (Bool-cases (tk.canceled w2).0) [
              | inl m ↦
                  rw (validate_outputs, e, k, m) (λ q. stop_run-same plan r _ _ w3 apart ∙ same3)
              | inr m ↦
                  rw (validate_outputs, e, k, m) (λ q. stop_run-same plan r _ _ w3 apart ∙ same3)
            ]
          ]
        ]

    -- A commit that stops in the validate stage, for an output that does not hold its codec or for
    -- a cancellation, has touched nothing but the staging files.
    pub commit_component-Spared :
        (is_soft : Bool) (w : W) → Spared w (commit_component tk plan is_soft w)
    unfolding commit_component
    commit_component-Spared is_soft w =
        let start = nothing_done succeeded no_stage in
        validate_outputs-Spared _ start w
          (λ v. commit_outputs-later is_soft plan.encodes start v refl) plan.encodes w refl

  -- The path is the staging name of a target, as a call that names it in the world would have it.
  abbrev pub names : W → Bytes → Bool
  names v target = bytes_beq p (temp_output_path target (tk.uuid8 v).0)

  abbrev Unnamed : List PlannedEncode → Type 0
  Unnamed encs = (v : W) → any_b (λ enc. names v enc.target) encs ≡ false

  -- One encode, and all of them: the path is as it was, and is staging for none of them.
  abbrev Quiet : W → List PlannedEncode → W → Type 0
  Quiet w encs v = (disk v p ≡ disk w p) × (stages p encs ≡ false)

  encode_one-Quiet :
      (enc : PlannedEncode) (w : W)
      → ((v : W) → names v enc.target ≡ false)
      → bytes_beq p enc.temp ≡ false
      → Quiet w ((encode_one tk enc w).0.0 ∷ []) (encode_one tk enc w).1
  unfolding encode_one any_b
  encode_one-Quiet enc w free h =
      let w1 = (tk.canceled w).1 in
      let (uuid, w2) = tk.uuid8 w1 in
      let temp = temp_output_path enc.target uuid in
      let done = tk.encode enc.source temp enc.spec w2 in
      let same1 : disk w1 p ≡ disk w p = laws.canceled_reads w p in
      let same3 : disk done.1 p ≡ disk w p =
        laws.encode_local enc.source temp enc.spec w2 p (free w1)
        ∙ (laws.uuid_reads w1 p ∙ same1) in
      elim (Bool-cases (tk.canceled w).0) [
        | inl e ↦ rw (encode_one, e) (same1, rw h refl)
        | inr e ↦ elim (Bool-cases done.0) [
          | inl k ↦ rw (encode_one, e, k) (same3, rw (free w1) refl)
          | inr k ↦ rw (encode_one, e, k) (laws.canceled_reads done.1 p ∙ same3, rw (free w1) refl)
        ]
      ]

  encode_all-Quiet :
      (encs : List PlannedEncode) (w : W)
      → Unnamed encs
      → stages p encs ≡ false
      → Quiet w (encode_all tk encs w).0.0 (encode_all tk encs w).1
  unfolding encode_all any_b
  encode_all-Quiet [] w free h = (refl, refl)
  encode_all-Quiet (enc ∷ encs) w free h =
      let here : bytes_beq p enc.temp ≡ false = ground arith in
      let there : stages p encs ≡ false = ground arith in
      let one = encode_one tk enc w in
      let (same, staged) = encode_one-Quiet enc w (λ v. ground (arith, free v)) here in
      elim (Option-cases one.0.1) [
        | inr (x, e) ↦ rw (encode_all, e) (same, ground arith)
        | inl e ↦
            let (same', staged') =
              encode_all-Quiet encs one.1 (λ v. ground (arith, free v)) there in
            rw (encode_all, e) (same' ∙ same, ground arith)
      ]

  fit_is_unstaged :
      (bad : Bytes → Bool) (encs : List PlannedEncode)
      → bytes_beq p [] ≡ false
      → any_b (unfit bad) encs ≡ false
      → (stages p encs ≡ false) × (any_b (λ enc. bad enc.target) encs ≡ false)
  unfolding any_b
  fit_is_unstaged bad [] ne h = (refl, refl)
  fit_is_unstaged bad (enc ∷ encs) ne h = elim (nil_cases enc.temp) [
    | inl e ↦ rw e (ground (arith, fit_is_unstaged bad encs ne))
    | inr b ↦ ground arith
  ]

  finish_run-Spared :
      (staged : PlannedComponent) (is_soft : Bool) (cause : Cause) (v w0 : W)
      → stages p staged.encodes ≡ false
      → disk v p ≡ disk w0 p
      → Spared w0 (finish_run tk staged is_soft cause v)
  finish_run-Spared staged is_soft none v w0 h same =
      λ q. commit_component-Spared staged h is_soft v q ∙ same
  finish_run-Spared staged is_soft (some e) v w0 h same =
      λ q. discard-same staged (some e) v h ∙ same

  run_checked-Spared :
      (is_soft : Bool) (checked : Result PlannedComponent) (w w0 : W)
      → bytes_beq p [] ≡ false
      → ((plan : PlannedComponent) → checked ≡ ok plan → (v : W) → Fit (names v) plan)
      → disk w p ≡ disk w0 p
      → Spared w0 (run_checked tk is_soft checked w)
  run_checked-Spared is_soft (refuse code) w w0 ne new same = λ q. same
  run_checked-Spared is_soft (ok plan) w w0 ne new same =
      let fit = λ (v : W). fit_is_unstaged (names v) plan.encodes ne (new plan refl v) in
      let (same', staged) = encode_all-Quiet plan.encodes w (λ v. (fit v).1) (fit w).0 in
      let ((encodes, cause), v) = encode_all tk plan.encodes w in
      finish_run-Spared (record plan { encodes = encodes }) is_soft cause v w0 staged (same' ∙ same)

  run_component_spares :
      (req : ComponentRunRequest) (w : W)
      → bytes_beq p [] ≡ false
      → ((v : W) → any_b (aims (names v)) req.component.operations ≡ false)
      → Spared w (run_component tk req w)
  unfolding run_component
  run_component_spares req w ne free = elim (Bool-cases (tk.canceled w).0) [
    | inl e ↦ rw (run_component, e) (λ q. cc)
    | inr e ↦
        rw (run_component, e)
          (run_checked-Spared (is_soft_mode req.delete_mode) _ (tk.canceled w).1 w ne
            (λ plan e v. precheck-Fit (names v) tk (tk.canceled w).1 req plan (free v) e)
            (laws.canceled_reads w p))
  ]

  -- Where the file system keeps its documented laws: a run that ends in the precheck, materialize
  -- or validate stage leaves every path as it was that is not empty and not a staging name of one of
  -- its targets.
  pub run_component_untouched :
      (req : ComponentRunRequest) (w : W)
      → bytes_beq p [] ≡ false
      → ((v : W) → any_b (aims (names v)) req.component.operations ≡ false)
      → is_early (run_component tk req w).0.0.stage ≡ true
      → disk (run_component tk req w).1 p ≡ disk w p
  run_component_untouched req w ne free q = run_component_spares req w ne free q
