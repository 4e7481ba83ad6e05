-- ===== src/Reconcile/Waiting/Declared.antt =====
-- The operations of the strict table wait for its targets.
use dorganizer.Prelude.{
  true, false, ◌||◌, List, [], ◌∷◌, ◌++◌, Bytes, bytes_beq, bytes_beq_iff, any_b, any_b-append, map,
  ◌≡◌, refl, arith, Option-cases, inl, inr,
}
use dorganizer.Prelude.Member.{elem}
use dorganizer.Reconcile.Types.{DesiredProfile, GroupedFile}
use dorganizer.Reconcile.Outcome.{Operation, ComponentOutcome, status_ok, append_unique}
use dorganizer.Reconcile.Effects.{made, elem-append_unique}
use dorganizer.Reconcile.Strict.{GroupPlan}
use dorganizer.Reconcile.Strict.Actions.{
  remove_op, encodes_of, all_encodes, all_removals, targets_of,
}
use dorganizer.Reconcile.Strict.Component.{Lanes, finish_strict}
use dorganizer.Reconcile.Waiting.{
  hasty, foreign, relies_on, made-first, Orderly, IsWaiting, IsWaiting-append,
  IsWaiting-sort_operations,
}

elem-targets_of :
    (t : Bytes) (seen : List Bytes) (ops : List Operation)
    → elem t (targets_of seen ops) ≡ (elem t seen || any_b (λ o. bytes_beq o.target_path t) ops)
unfolding targets_of any_b
elem-targets_of t seen [] = ground arith
elem-targets_of t seen (o ∷ ops) = ground (
  arith,
  elem-append_unique t o.target_path seen,
  elem-targets_of t (append_unique seen o.target_path) ops,
)

made-targets_of :
    (t : Bytes) (seen : List Bytes) (ops : List Operation)
    → made t ops ≡ true
    → any_b (λ o. bytes_beq o.target_path t) ops ≡ true
unfolding any_b
made-targets_of t seen [] h = h
made-targets_of t seen (o ∷ ops) h = ground (arith, made-targets_of t seen ops)

append-made :
    (t : Bytes) (xs ys : List Operation)
    → made t xs ≡ any_b (λ o. bytes_beq o.target_path t) xs
    → made t ys ≡ any_b (λ o. bytes_beq o.target_path t) ys
    → made t (xs ++ ys) ≡ any_b (λ o. bytes_beq o.target_path t) (xs ++ ys)
append-made t xs ys h k = rw (any_b-append, any_b-append) (rw (h, k) refl)

module _ (id : Bytes) (profile : DesiredProfile) where
  encodes_of-calm :
      (t : Bytes) (p : GroupPlan)
      → (any_b (foreign id) (encodes_of id profile p) ≡ false)
        × (any_b (hasty t) (encodes_of id profile p) ≡ false)
        × (any_b (relies_on t) (encodes_of id profile p) ≡ false)
  unfolding encodes_of any_b elem
  encodes_of-calm t p = ground (arith, bytes_beq_iff id id)

  all_encodes-calm :
      (t : Bytes) (ps : List GroupPlan)
      → (any_b (foreign id) (all_encodes id profile ps) ≡ false)
        × (any_b (hasty t) (all_encodes id profile ps) ≡ false)
        × (any_b (relies_on t) (all_encodes id profile ps) ≡ false)
  unfolding all_encodes any_b
  all_encodes-calm t [] = (refl, refl, refl)
  all_encodes-calm t (p ∷ ps) =
      let (a, b, e) = encodes_of-calm t p in
      let (c, d, f) = all_encodes-calm t ps in
      (
        rw any_b-append (rw (a, c) refl),
        rw any_b-append (rw (b, d) refl),
        rw any_b-append (rw (e, f) refl),
      )

  encodes_of-made :
      (t : Bytes) (p : GroupPlan)
      → made t (encodes_of id profile p)
        ≡ any_b (λ o. bytes_beq o.target_path t) (encodes_of id profile p)
  unfolding encodes_of any_b
  encodes_of-made t p = ground arith

  all_encodes-made :
      (t : Bytes) (ps : List GroupPlan)
      → made t (all_encodes id profile ps)
        ≡ any_b (λ o. bytes_beq o.target_path t) (all_encodes id profile ps)
  unfolding all_encodes any_b
  all_encodes-made t [] = refl
  all_encodes-made t (p ∷ ps) =
      append-made t (encodes_of id profile p) (all_encodes id profile ps) (encodes_of-made t p)
        (all_encodes-made t ps)

  -- The targets that the removals wait for are made.
  all_encodes_complete :
      (t : Bytes) (ps : List GroupPlan)
      → elem t (targets_of [] (all_encodes id profile ps)) ≡ true
      → made t (all_encodes id profile ps) ≡ true
  unfolding elem
  all_encodes_complete t ps h =
      ground (arith, elem-targets_of t [] (all_encodes id profile ps), all_encodes-made t ps)

  all_encodes-IsWaiting :
      (ps : List GroupPlan)
      → IsWaiting id (targets_of [] (all_encodes id profile ps)) (all_encodes id profile ps)
  unfolding elem
  all_encodes-IsWaiting ps = record {
    own = (all_encodes-calm [] ps).0;
    targeted = λ t m.
        rw (elem-targets_of t [] (all_encodes id profile ps))
          (made-targets_of t [] (all_encodes id profile ps) m);
    patient = λ t _. (all_encodes-calm t ps).1;
    relied = λ t m. cc ((all_encodes-calm t ps).2);
  }

module _ (id : Bytes) (targets : List Bytes) where
  removes_of-IsWaiting :
      (stem : Bytes) (fs : List GroupedFile)
      → IsWaiting id targets (map (remove_op id targets stem) fs)
  unfolding any_b
  removes_of-IsWaiting stem [] = record {
    own = refl;
    targeted = λ t m. cc;
    patient = λ t m. refl;
    relied = λ t m. cc;
  }
  removes_of-IsWaiting stem (f ∷ fs) =
      let rest = removes_of-IsWaiting stem fs in
      record {
        own = ground (arith, rest.own, bytes_beq_iff id id);
        targeted = λ t m. rest.targeted t m;
        patient = λ t m. ground (arith, rest.patient t m);
        relied = λ t m. ground (arith, rest.relied t);
      }

  all_removals-IsWaiting : (ps : List GroupPlan) → IsWaiting id targets (all_removals id targets ps)
  unfolding all_removals any_b
  all_removals-IsWaiting [] = record {
    own = refl;
    targeted = λ t m. cc;
    patient = λ t m. refl;
    relied = λ t m. cc;
  }
  all_removals-IsWaiting (p ∷ ps) =
      IsWaiting-append id targets _ _ (removes_of-IsWaiting p.stem _) (all_removals-IsWaiting ps)

pub finish_strict-Orderly :
    (profile : DesiredProfile) (out : ComponentOutcome) (s : Lanes)
    → out.status ≡ status_ok
    → out.operations ≡ []
    → out.projected_inventory ≡ []
    → Orderly (finish_strict profile out s)
unfolding finish_strict any_b
finish_strict-Orderly profile out s ok ops inv = elim (Option-cases s.blocked) [
  | inr (r, e) ↦
      rw (e, finish_strict)
        (record {
          idle = λ _. (ops, inv);
          owned = rw ops refl;
          waits = λ t m. rw ops refl;
          relies = λ t m. cc (rw ops at m);
        })
  | inl e ↦
      let id = out.component_id in
      let encodes = all_encodes id profile s.plans in
      let w = IsWaiting-sort_operations id (targets_of [] encodes) _ (
        IsWaiting-append id (targets_of [] encodes) encodes _
          (all_encodes-IsWaiting id profile s.plans)
          (all_removals-IsWaiting id (targets_of [] encodes) s.plans)) in
      rw (e, finish_strict)
        (record {
          idle = λ h. cc;
          owned = w.own;
          waits = λ t m. w.patient t (w.targeted t m);
          relies = λ t m.
              made-first t encodes _ (all_encodes_complete id profile t s.plans (w.relied t m));
        })
]
