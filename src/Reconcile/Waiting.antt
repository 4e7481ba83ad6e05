-- ===== src/Reconcile/Waiting.antt =====
-- When the removals of a component run: after every target of its encodes is there.
use dorganizer.Prelude.{
  Bool, true, false, ◌&&◌, not, List, [], ◌++◌, Bytes, bytes_beq, any_b, any_b-append, ◌≡◌, refl,
  arith, Bool-cases, ltb,
}
use dorganizer.Prelude.Member.{elem}
use dorganizer.Prelude.Sorting.{any_b-sort_by}
use dorganizer.Reconcile.Outcome.{
  Operation, ComponentOutcome, status_blocked, operation_less, sort_operations,
}
use dorganizer.Reconcile.Effects.{is_encode, made}
mod Relaxed
mod Declared
pub mod Tables

-- A removal that does not wait for the target, an operation that waits for it, and an operation of
-- another component.
abbrev pub hasty : Bytes → Operation → Bool
hasty t o = not (is_encode o.kind) && not (elem t o.depends_on)

abbrev pub relies_on : Bytes → Operation → Bool
relies_on t o = elem t o.depends_on

abbrev pub foreign : Bytes → Operation → Bool
foreign id o = not (bytes_beq o.component_id id)

-- A blocked outcome holds no operation and projects nothing; every operation is the component's;
-- a path that an encode writes is among the dependencies of every removal; and only such a path is
-- among the dependencies of an operation.
pub record Orderly (out : ComponentOutcome) : Type 0 where
  pub idle : out.status ≡ status_blocked → (out.operations ≡ []) × (out.projected_inventory ≡ [])
  pub owned : any_b (foreign out.component_id) out.operations ≡ false
  pub waits : (t : Bytes) → made t out.operations ≡ true → any_b (hasty t) out.operations ≡ false
  pub relies :
      (t : Bytes) → any_b (relies_on t) out.operations ≡ true → made t out.operations ≡ true

-- Operations of the component that take the targets of the list for theirs.
pub record IsWaiting (id : Bytes) (targets : List Bytes) (ops : List Operation) : Type 0 where
  pub own : any_b (foreign id) ops ≡ false
  pub targeted : (t : Bytes) → made t ops ≡ true → elem t targets ≡ true
  pub patient : (t : Bytes) → elem t targets ≡ true → any_b (hasty t) ops ≡ false
  pub relied : (t : Bytes) → any_b (relies_on t) ops ≡ true → elem t targets ≡ true

pub IsWaiting-append :
    (id : Bytes) (targets : List Bytes) (xs ys : List Operation)
    → IsWaiting id targets xs
    → IsWaiting id targets ys
    → IsWaiting id targets (xs ++ ys)
IsWaiting-append id targets xs ys h k = record {
  own = rw any_b-append (rw (h.own, k.own) refl);
  targeted = λ t m. ground (
    arith,
    any_b-append (λ o. is_encode o.kind && bytes_beq o.target_path t) xs ys,
    h.targeted t,
    k.targeted t,
  );
  patient = λ t m. rw any_b-append (rw (h.patient t m, k.patient t m) refl);
  relied = λ t m. ground (arith, any_b-append (relies_on t) xs ys, h.relied t, k.relied t);
}

pub IsWaiting-sort_operations :
    (id : Bytes) (targets : List Bytes) (ops : List Operation)
    → IsWaiting id targets ops
    → IsWaiting id targets (sort_operations ops)
unfolding sort_operations
IsWaiting-sort_operations id targets ops h = record {
  own = rw (any_b-sort_by operation_less) h.own;
  targeted = λ t m. h.targeted t (rw (any_b-sort_by operation_less) at m);
  patient = λ t m. rw (any_b-sort_by operation_less) (h.patient t m);
  relied = λ t m. h.relied t (rw (any_b-sort_by operation_less) at m);
}

-- What the encodes of a sorted list make, the list makes.
pub made-first :
    (t : Bytes) (xs ys : List Operation)
    → made t xs ≡ true
    → made t (sort_operations (xs ++ ys)) ≡ true
unfolding sort_operations
made-first t xs ys h = rw (any_b-sort_by operation_less, any_b-append) (rw h refl)
