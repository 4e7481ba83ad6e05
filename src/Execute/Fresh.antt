-- ===== src/Execute/Fresh.antt =====
-- A component that has passed the precheck has no staging file yet, and no target but those of its
-- operations.
use dorganizer.Prelude.{
  Bool, false, ◌||◌, not, List, [], ◌∷◌, ◌++◌, Option, none, some, Bytes, any_b, any_b-append,
  is_nil, ◌==◌, bytes_eq, ◌≡◌, refl, sym, ◌∙◌, arith, subst,
}
use dorganizer.GoPath
use dorganizer.Reconcile.Types.{AudioOutputSpec, FileTuple}
use dorganizer.Reconcile.Outcome.{
  ComponentOutcome, OpKind, op_encode, op_remove_obsolete, Operation, materialize_outputs,
}
use dorganizer.Execute.Toolkit.{Toolkit}
use dorganizer.Execute.Plan.{
  PlannedEncode, PlannedComponent, Result, ok, refuse, ◌>>=◌, ◌>>◌, guard, Specs, spec_at,
  native_path, is_phase, known_spec, planned_encode, unsupported_op, target_conflict,
  collect_encode, collect_remove, collect_operation, collect_operations, encode_specs_by_extension,
  validate_conflicts, validate_dependencies,
}
use dorganizer.Execute.Facts.{
  ComponentRunRequest, declared_targets, check_paths, new_planned_component, check_encode,
  check_encodes, check_disk_facts, precheck_component_request,
}

-- An encode whose staging has begun, or whose target is not wanted.
abbrev pub unfit : (Bytes → Bool) → PlannedEncode → Bool
unfit bad enc = not (is_nil enc.temp) || bad enc.target

abbrev pub Fit : (Bytes → Bool) → PlannedComponent → Type 0
Fit bad p = any_b (unfit bad) p.encodes ≡ false

-- An operation with such a target.
abbrev pub aims : (Bytes → Bool) → Operation → Bool
aims bad op = bad (native_path op.target_path)

module _ (bad : Bytes → Bool) {W : Type 0} (tk : Toolkit W) (w : W) where
  check_encode_keeps :
      (p : PlannedComponent) (frozen : List FileTuple) (declared : List Bytes)
      (enc enc' : PlannedEncode)
      → check_encode tk w p frozen declared enc ≡ ok enc'
      → unfit bad enc' ≡ unfit bad enc
  unfolding check_encode
  check_encode_keeps p frozen declared enc enc' h = ground arith

  check_encodes_keeps :
      (p : PlannedComponent) (frozen : List FileTuple) (declared : List Bytes)
      (encs encs' : List PlannedEncode)
      → check_encodes tk w p frozen declared encs ≡ ok encs'
      → any_b (unfit bad) encs' ≡ any_b (unfit bad) encs
  unfolding check_encodes any_b
  check_encodes_keeps p frozen declared [] encs' h =
      let same : [] ≡ encs' = ground arith in rw (sym same) refl
  check_encodes_keeps p frozen declared (enc ∷ encs) encs' h =
      both (check_encode tk w p frozen declared enc) (check_encodes tk w p frozen declared encs)
        refl (λ xs k. check_encodes_keeps p frozen declared encs xs k) h
    where
      both :
          (one : Result PlannedEncode) (more : Result (List PlannedEncode))
          → check_encode tk w p frozen declared enc ≡ one
          → ((xs : List PlannedEncode)
              → more ≡ ok xs
              → any_b (unfit bad) xs ≡ any_b (unfit bad) encs)
          → (do enc' ← one; more' ← more; ok (enc' ∷ more')) ≡ ok encs'
          → any_b (unfit bad) encs' ≡ any_b (unfit bad) (enc ∷ encs)
      both (refuse c) more e k r = cc
      both (ok x) (refuse c) e k r = cc
      both (ok x) (ok xs) e k r =
          let same : x ∷ xs ≡ encs' = ground arith in
          rw (sym same) (ground (arith, check_encode_keeps p frozen declared enc x e, k xs refl))

collect_encode_keeps :
    (bad : Bytes → Bool) (to_lower : Bytes → Bytes) (op : Operation) (specs : Specs)
    (p p' : PlannedComponent)
    → aims bad op ≡ false
    → collect_encode to_lower op specs p ≡ ok p'
    → Fit bad p
    → Fit bad p'
unfolding collect_encode any_b
collect_encode_keeps bad to_lower op specs p p' a h k =
    found (spec_at (to_lower (GoPath.ext (native_path op.target_path))) specs) h
  where
    found :
        (o : Option AudioOutputSpec)
        → (do
          guard (is_phase op.phase materialize_outputs) unsupported_op
          guard (not (is_nil op.source_path || is_nil op.target_path)) unsupported_op
          spec ← known_spec o
          guard (not (native_path op.source_path == native_path op.target_path)) target_conflict
          ok (record p { encodes = p.encodes ++ planned_encode op spec ∷ [] }))
          ≡ ok p'
        → Fit bad p'
    found none r = ground arith
    found (some spec) r =
        let same : record p { encodes = p.encodes ++ planned_encode op spec ∷ [] } ≡ p' =
          ground arith in
        subst (Fit bad) same (rw any_b-append (rw (k, a) refl))

collect_operation_keeps :
    (bad : Bytes → Bool) (to_lower : Bytes → Bytes) (k : OpKind) (op : Operation) (specs : Specs)
    (p p' : PlannedComponent)
    → aims bad op ≡ false
    → collect_operation to_lower k op specs p ≡ ok p'
    → Fit bad p
    → Fit bad p'
unfolding collect_operation collect_remove
collect_operation_keeps bad to_lower op_encode op specs p p' a h k =
    collect_encode_keeps bad to_lower op specs p p' a h k
collect_operation_keeps bad to_lower op_remove_obsolete op specs p p' a h k =
    let same : p.encodes ≡ p'.encodes = ground arith in rw (sym same) k

collect_operations_keeps :
    (bad : Bytes → Bool) (to_lower : Bytes → Bytes) (id : Bytes) (ops : List Operation)
    (specs : Specs) (p p' : PlannedComponent)
    → any_b (aims bad) ops ≡ false
    → collect_operations to_lower id ops specs p ≡ ok p'
    → Fit bad p
    → Fit bad p'
unfolding collect_operations any_b
collect_operations_keeps bad to_lower id [] specs p p' a h k =
    let same : p ≡ p' = ground arith in subst (Fit bad) same k
collect_operations_keeps bad to_lower id (op ∷ ops) specs p p' a h k =
    taken (collect_operation to_lower op.kind op specs p)
      (λ q e. collect_operation_keeps bad to_lower op.kind op specs p q (ground arith) e k)
      (λ q e u. collect_operations_keeps bad to_lower id ops specs q p' (ground arith) e u) h
  where
    taken :
        (r : Result PlannedComponent)
        → ((q : PlannedComponent) → r ≡ ok q → Fit bad q)
        → ((q : PlannedComponent)
            → collect_operations to_lower id ops specs q ≡ ok p'
            → Fit bad q
            → Fit bad p')
        → (do
          guard (op.component_id == id) unsupported_op
          q ← r
          collect_operations to_lower id ops specs q)
          ≡ ok p'
        → Fit bad p'
    taken (refuse c) one rest e = ground arith
    taken (ok q) one rest e = rest q (ground arith) (one q refl)

-- A result's value, with the equation.
bind_passed :
    {A B : Type 0} (m : Result A) (k : A → Result B) (r : B)
    → (m >>= k) ≡ ok r
    → (a : A) × (m ≡ ok a) × (k a ≡ ok r)
bind_passed (ok a) k r h = (a, refl, h)
bind_passed (refuse c) k r h = cc

module _ (bad : Bytes → Bool) {W : Type 0} (tk : Toolkit W) (w : W) where
  new_planned_component_empty :
      (req : ComponentRunRequest) (p : PlannedComponent)
      → new_planned_component tk w req ≡ ok p
      → p.encodes ≡ []
  unfolding new_planned_component
  new_planned_component_empty req p h = ground arith

  check_disk_facts_keeps :
      (c : ComponentOutcome) (p p' : PlannedComponent)
      → check_disk_facts tk w c p ≡ ok p'
      → Fit bad p
      → Fit bad p'
  unfolding check_disk_facts
  check_disk_facts_keeps c p p' h k =
      let (encs, e, r) =
        bind_passed (check_encodes tk w p c.files (declared_targets c.variants) p.encodes) _ p' h in
      let same : encs ≡ p'.encodes = ground arith in
      rw (sym same)
        (check_encodes_keeps bad tk w p c.files (declared_targets c.variants) p.encodes encs e ∙ k)

  pub precheck-Fit :
      (req : ComponentRunRequest) (p : PlannedComponent)
      → any_b (aims bad) req.component.operations ≡ false
      → precheck_component_request tk w req ≡ ok p
      → Fit bad p
  unfolding precheck_component_request any_b
  precheck-Fit req p a h =
      let c = req.component in
      let (fresh, e1, r1) = bind_passed (new_planned_component tk w req) _ p h in
      let (specs, e2, r2) = bind_passed (encode_specs_by_extension req.specs) _ p r1 in
      let (plan, e3, r3) =
        bind_passed (collect_operations tk.to_lower c.component_id c.operations specs fresh) _ p
          r2 in
      let (_, _, r4) = bind_passed (validate_conflicts plan) _ p r3 in
      let (_, _, r5) = bind_passed (validate_dependencies plan) _ p r4 in
      let (_, _, r6) = bind_passed (check_paths tk w plan) _ p r5 in
      let (checked, e7, r7) = bind_passed (check_disk_facts tk w c plan) _ p r6 in
      let same : checked ≡ p = ground arith in
      let empty : Fit bad fresh = rw (new_planned_component_empty req fresh e1) refl in
      subst (Fit bad) same (
        check_disk_facts_keeps c plan checked e7 (
          collect_operations_keeps bad tk.to_lower c.component_id c.operations specs fresh plan a e3
            empty))
