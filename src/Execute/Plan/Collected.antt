-- ===== src/Execute/Plan/Collected.antt =====
-- collectOperations of component_precheck.go: what it collects from an operation list, and what
-- that means for the lists that the planner writes.
use dorganizer.Prelude.{
  Bool, true, false, ◌&&◌, ◌||◌, not, List, [], ◌∷◌, ◌++◌, map, Bytes, bytes_beq, bytes_beq_iff,
  any_b, any_b-append, ◌≡◌, refl, arith, is_nil, ◌==◌, bytes_eq, subst, Option, none, some,
  Bool-cases, inl, inr,
}
use dorganizer.Prelude.Member.{elem, elem-append}
use dorganizer.GoPath
use dorganizer.Reconcile.Types.{Partition, Policy, AudioOutputSpec}
use dorganizer.Reconcile.Outcome.{
  OpKind, op_encode, op_remove_obsolete, Operation, materialize_outputs,
}
use dorganizer.Reconcile.Grouping.{Runtime, Component}
use dorganizer.Reconcile.Plan.{plan_component}
use dorganizer.Reconcile.Effects.{is_encode, made}
use dorganizer.Reconcile.Waiting.{relies_on}
use dorganizer.Reconcile.Waiting.Tables.{plan_component-Orderly}
use dorganizer.Execute.Plan.{
  planned_encode, native_path, posix_form, target_of, PlannedEncode, PlannedRemove,
  PlannedComponent, Result, ok, refuse, ◌>>=◌, ◌>>◌, guard, Specs, spec_at, collect_encode,
  collect_remove, collect_operation, collect_operations, is_phase, known_spec,
  validate_dependencies, unsupported_op, target_conflict,
}
use dorganizer.Execute.Plan.Sound.{passes, targets, depends_outside, validate_dependencies_lem}

-- The form in which a path of an operation is compared.
abbrev pub settled : Bytes → Bytes
settled t = posix_form (native_path t)

-- An encode of the target, and a removal that waits for a path outside the list.
abbrev pub encodes_to : Bytes → Operation → Bool
encodes_to t o = is_encode o.kind && bytes_beq t (settled o.target_path)

abbrev pub waits_outside : List Bytes → Operation → Bool
waits_outside ts o = not (is_encode o.kind) && any_b (λ d. not (elem (settled d) ts)) o.depends_on

-- What a list of operations adds to a planned component.
pub record Collected (ops : List Operation) (p p' : PlannedComponent) : Type 0 where
  pub writes : (t : Bytes) → elem t (targets p') ≡ (elem t (targets p) || any_b (encodes_to t) ops)
  pub needs :
      (ts : List Bytes)
      → any_b (depends_outside ts) p'.removes
        ≡ (any_b (depends_outside ts) p.removes || any_b (waits_outside ts) ops)

any-map {ℓ κ} :
    {A : Type ℓ} {B : Type κ} (f : A → B) (q : B → Bool) (xs : List A)
    → any_b q (map f xs) ≡ any_b (λ x. q (f x)) xs
unfolding any_b
any-map f q [] = refl
any-map f q (x ∷ xs) = rw (any-map f q xs) refl

map-append {ℓ κ} :
    {A : Type ℓ} {B : Type κ} (f : A → B) (xs ys : List A) → map f (xs ++ ys) ≡ map f xs ++ map f ys
map-append f [] ys = refl
map-append f (x ∷ xs) ys = rw (map-append f xs ys) refl

add_encode-Collected :
    (op : Operation) (enc : PlannedEncode) (p : PlannedComponent)
    → is_encode op.kind ≡ true
    → enc.target ≡ native_path op.target_path
    → Collected (op ∷ []) p (record p { encodes = p.encodes ++ enc ∷ [] })
unfolding any_b elem
add_encode-Collected op enc p h e = record {
  writes = λ t. rw (map-append target_of p.encodes (enc ∷ []), elem-append, h, e) refl;
  needs = λ ts. ground (arith);
}

add_remove-Collected :
    (op : Operation) (r : PlannedRemove) (p : PlannedComponent)
    → is_encode op.kind ≡ false
    → r.depends_on ≡ map (λ d. settled d) op.depends_on
    → Collected (op ∷ []) p (record p { removes = p.removes ++ r ∷ [] })
unfolding any_b elem
add_remove-Collected op r p h e = record {
  writes = λ t. ground arith;
  needs = λ ts. rw (any_b-append, h, e, any-map) refl;
}

seq-Collected :
    (o : Operation) (os : List Operation) (p q r : PlannedComponent)
    → Collected (o ∷ []) p q
    → Collected os q r
    → Collected (o ∷ os) p r
unfolding any_b
seq-Collected o os p q r h k = record {
  writes = λ t. ground (arith, h.writes t, k.writes t);
  needs = λ ts. ground (arith, h.needs ts, k.needs ts);
}

abbrev planned_remove : Operation → PlannedRemove
planned_remove op = record {
  source = native_path op.source_path;
  depends_on = map (λ d. settled d) op.depends_on;
}

module _ (to_lower : Bytes → Bytes) where
  encode_core :
      (op : Operation) (p p' : PlannedComponent) (found : Option AudioOutputSpec)
      → is_encode op.kind ≡ true
      → (do
        guard (is_phase op.phase materialize_outputs) unsupported_op
        guard (not (is_nil op.source_path || is_nil op.target_path)) unsupported_op
        spec ← known_spec found
        guard (not (native_path op.source_path == native_path op.target_path)) target_conflict
        ok (record p { encodes = p.encodes ++ planned_encode op spec ∷ [] }))
        ≡ ok p'
      → Collected (op ∷ []) p p'
  encode_core op p p' none e h = ground arith
  encode_core op p p' (some spec) e h =
      let same : record p { encodes = p.encodes ++ planned_encode op spec ∷ [] } ≡ p' =
        ground arith in
      subst (Collected (op ∷ []) p) same (add_encode-Collected op (planned_encode op spec) p e refl)

  collect_encode-Collected :
      (op : Operation) (specs : Specs) (p p' : PlannedComponent)
      → is_encode op.kind ≡ true
      → collect_encode to_lower op specs p ≡ ok p'
      → Collected (op ∷ []) p p'
  unfolding collect_encode
  collect_encode-Collected op specs p p' e h =
      encode_core op p p' (spec_at (to_lower (GoPath.ext (native_path op.target_path))) specs) e h

  collect_remove-Collected :
      (op : Operation) (p p' : PlannedComponent)
      → is_encode op.kind ≡ false
      → collect_remove to_lower op p ≡ ok p'
      → Collected (op ∷ []) p p'
  unfolding collect_remove
  collect_remove-Collected op p p' e h =
      let same : record p { removes = p.removes ++ planned_remove op ∷ [] } ≡ p' = ground arith in
      subst (Collected (op ∷ []) p) same (add_remove-Collected op (planned_remove op) p e refl)

  collect_operation-Collected :
      (k : OpKind) (op : Operation) (specs : Specs) (p p' : PlannedComponent)
      → op.kind ≡ k
      → collect_operation to_lower k op specs p ≡ ok p'
      → Collected (op ∷ []) p p'
  unfolding collect_operation
  collect_operation-Collected op_encode op specs p p' e h =
      collect_encode-Collected op specs p p' (rw e refl) h
  collect_operation-Collected op_remove_obsolete op specs p p' e h =
      collect_remove-Collected op p p' (rw e refl) h

  loop_core :
      (id : Bytes) (op : Operation) (ops : List Operation) (specs : Specs) (p p' : PlannedComponent)
      (r : Result PlannedComponent)
      → ((q : PlannedComponent) → r ≡ ok q → Collected (op ∷ []) p q)
      → ((q : PlannedComponent)
          → collect_operations to_lower id ops specs q ≡ ok p'
          → Collected ops q p')
      → (do
        guard (op.component_id == id) unsupported_op
        q ← r
        collect_operations to_lower id ops specs q)
        ≡ ok p'
      → Collected (op ∷ ops) p p'
  loop_core id op ops specs p p' (refuse c) one rest h = ground arith
  loop_core id op ops specs p p' (ok q) one rest h =
      seq-Collected op ops p q p' (one q refl) (rest q (ground arith))

  -- An operation list that is accepted is collected whole: the targets gain the cleaned target of
  -- each of its encodes and no other, and the removals that wait for a path outside any list gain
  -- those of its removals that do and no other.
  pub collect_operations-Collected :
      (id : Bytes) (ops : List Operation) (specs : Specs) (p p' : PlannedComponent)
      → collect_operations to_lower id ops specs p ≡ ok p'
      → Collected ops p p'
  unfolding collect_operations any_b
  collect_operations-Collected id [] specs p p' h =
      let same : p ≡ p' = ground arith in
      record { writes = λ t. rw same (ground arith); needs = λ ts. rw same (ground arith) }
  collect_operations-Collected id (op ∷ ops) specs p p' h =
      loop_core id op ops specs p p' (collect_operation to_lower op.kind op specs p)
        (λ q. collect_operation-Collected op.kind op specs p q refl)
        (λ q. collect_operations-Collected id ops specs q p') h

made-encodes_to :
    (t : Bytes) (ops : List Operation)
    → made t ops ≡ true
    → any_b (encodes_to (settled t)) ops ≡ true
unfolding any_b
made-encodes_to t [] h = h
made-encodes_to t (o ∷ ops) h = elim (Bool-cases (is_encode o.kind && bytes_beq o.target_path t)) [
  | inl e ↦
      let same : o.target_path ≡ t = ground (arith, bytes_beq_iff o.target_path t) in
      rw same (ground (arith, bytes_beq_iff (settled t) (settled t)))
  | inr e ↦ ground (arith, made-encodes_to t ops)
]

none_waits :
    (ts deps : List Bytes)
    → ((t : Bytes) → elem t deps ≡ true → elem (settled t) ts ≡ true)
    → any_b (λ d. not (elem (settled d) ts)) deps ≡ false
unfolding any_b elem
none_waits ts [] h = refl
none_waits ts (d ∷ deps) h =
    ground (arith, h d, bytes_beq_iff d d, none_waits ts deps (λ t m. h t (ground arith)))

none_waits_outside :
    (ts : List Bytes) (ops : List Operation)
    → ((t : Bytes) → any_b (relies_on t) ops ≡ true → elem (settled t) ts ≡ true)
    → any_b (waits_outside ts) ops ≡ false
unfolding any_b
none_waits_outside ts [] h = refl
none_waits_outside ts (o ∷ ops) h = ground (
  arith,
  none_waits ts o.depends_on (λ t m. h t (ground arith)),
  none_waits_outside ts ops (λ t m. h t (ground arith)),
)

-- What the planner writes for a component and the executor collects, into a component with
-- nothing planned yet, passes the check on dependencies: the executor never refuses one of the
-- planner's components for a removal that waits for a file that is not made.
pub plan_component-Dependable :
    (rt : Runtime) (policy : Policy) (root : Bytes) (occupied : List Bytes) (q : Partition)
    (c : Component) (to_lower : Bytes → Bytes) (id : Bytes) (specs : Specs)
    (p p' : PlannedComponent)
    → p.removes ≡ []
    → collect_operations to_lower id (plan_component rt policy root occupied q c).operations specs p
      ≡ ok p'
    → passes (validate_dependencies p') ≡ true
unfolding any_b
plan_component-Dependable rt policy root occupied q c to_lower id specs p p' fresh h =
    let out = plan_component rt policy root occupied q c in
    let orderly = plan_component-Orderly rt policy root occupied q c in
    let col = collect_operations-Collected to_lower id out.operations specs p p' h in
    let inside : (t : Bytes)
        → any_b (relies_on t) out.operations ≡ true
        → elem (settled t) (targets p') ≡ true =
      λ t m.
        ground
          (arith, col.writes (settled t), made-encodes_to t out.operations (orderly.relies t m)) in
    let quiet = none_waits_outside (targets p') out.operations inside in
    ground (arith, validate_dependencies_lem p', col.needs (targets p'))
