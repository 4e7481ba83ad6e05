-- ===== src/Reconcile/Waiting/Relaxed.antt =====
-- The operations of the relaxed table wait for its targets.
use dorganizer.Prelude.{
  true, false, ◌||◌, ◌&&◌, List, [], ◌∷◌, ◌++◌, map, none, Bytes, bytes_beq, bytes_beq_iff, any_b,
  any_b-append, ◌≡◌, refl, arith, Option-cases, inl, inr,
}
use dorganizer.Prelude.Member.{elem}
use dorganizer.Reconcile.Types.{DesiredProfile, StemGroup}
use dorganizer.Reconcile.Outcome.{
  FileDecision, VariantDecision, Operation, ComponentOutcome, status_ok, append_unique,
}
use dorganizer.Reconcile.Effects.{is_encode, made, elem-append_unique}
use dorganizer.Reconcile.Lenient.{lenient_stem}
use dorganizer.Reconcile.Lenient.Outputs.{Output, encode_op}
use dorganizer.Reconcile.Lenient.Cases.{ambiguous, conflict, unmet, reached, stem_cases}
use dorganizer.Reconcile.Lenient.Component.{
  Gathered, gather, owned_by, append_targets, removals_of, removals, finish_component,
  nothing_gathered,
}
use dorganizer.Reconcile.Waiting.{
  hasty, foreign, relies_on, made-first, Orderly, IsWaiting, IsWaiting-append,
  IsWaiting-sort_operations,
}

elem-append_targets :
    (t : Bytes) (targets ts : List Bytes)
    → elem t (append_targets targets ts) ≡ (elem t targets || elem t ts)
unfolding append_targets elem
elem-append_targets t targets [] = ground arith
elem-append_targets t targets (u ∷ ts) = ground (
  arith,
  elem-append_unique t u targets,
  elem-append_targets t (append_unique targets u) ts,
  bytes_beq_iff t u,
  bytes_beq_iff u t,
)

-- Operations of the component that wait for nothing, all of whose targets are in the list.
record IsCalm (id : Bytes) (targets : List Bytes) (ops : List Operation) : Type 0 where
  own : any_b (foreign id) ops ≡ false
  targeted : (t : Bytes) → made t ops ≡ true → elem t targets ≡ true
  complete : (t : Bytes) → elem t targets ≡ true → made t ops ≡ true
  calm : (t : Bytes) → any_b (hasty t) ops ≡ false
  reliant : (t : Bytes) → any_b (relies_on t) ops ≡ false

outputs-IsCalm :
    (id stem : Bytes) (outs : List Output)
    → IsCalm id (map (λ o. o.target) outs) (map (owned_by id) (map (encode_op stem) outs))
unfolding any_b elem
outputs-IsCalm id stem [] = record {
  own = refl;
  targeted = λ t m. cc;
  complete = λ t m. cc;
  calm = λ t. refl;
  reliant = λ t. refl;
}
outputs-IsCalm id stem (o ∷ outs) =
    let rest = outputs-IsCalm id stem outs in
    record {
      own = ground (arith, rest.own, bytes_beq_iff id id);
      targeted = λ t m.
          ground (arith, rest.targeted t, bytes_beq_iff t o.target, bytes_beq_iff o.target t);
      complete = λ t m.
          ground (arith, rest.complete t, bytes_beq_iff t o.target, bytes_beq_iff o.target t);
      calm = λ t. rest.calm t;
      reliant = λ t. rest.reliant t;
    }

module _ (id : Bytes) (profile : DesiredProfile) (occupied : List Bytes) where
  stem-IsCalm :
      (g : StemGroup)
      → (lenient_stem g profile occupied).block_code ≡ none
      → IsCalm id
          (lenient_stem g profile occupied).targets
          (map (owned_by id) (lenient_stem g profile occupied).ops)
  stem-IsCalm g open_ = elim (stem_cases g profile occupied) [
    | ambiguous n l code _ _ ↦ cc
    | conflict n t o code _ ↦ cc
    | unmet n s e ↦ rw e (outputs-IsCalm id g.stem [])
    | reached have free e ↦ rw e (outputs-IsCalm id g.stem _)
  ]

  IsCalm-step :
      (ts us : List Bytes) (xs ys : List Operation)
      → IsCalm id ts xs
      → IsCalm id us ys
      → IsCalm id (append_targets ts us) (xs ++ ys)
  IsCalm-step ts us xs ys h k = record {
    own = rw any_b-append (rw (h.own, k.own) refl);
    targeted = λ t m. ground (
      arith,
      elem-append_targets t ts us,
      any_b-append (λ o. is_encode o.kind && bytes_beq o.target_path t) xs ys,
      h.targeted t,
      k.targeted t,
    );
    complete = λ t m. ground (
      arith,
      elem-append_targets t ts us,
      any_b-append (λ o. is_encode o.kind && bytes_beq o.target_path t) xs ys,
      h.complete t,
      k.complete t,
    );
    calm = λ t. rw any_b-append (rw (h.calm t, k.calm t) refl);
    reliant = λ t. rw any_b-append (rw (h.reliant t, k.reliant t) refl);
  }

  gather-IsCalm :
      (gs : List StemGroup) (acc : Gathered)
      → IsCalm id acc.targets acc.operations
      → IsCalm id
          (gather id profile occupied acc gs).targets
          (gather id profile occupied acc gs).operations
  unfolding gather
  gather-IsCalm [] acc h = h
  gather-IsCalm (g ∷ gs) acc h = elim (Option-cases (lenient_stem g profile occupied).block_code) [
    | inl e ↦ rw (e, gather) (gather-IsCalm gs _ (IsCalm-step _ _ _ _ h (stem-IsCalm g e)))
    | inr (r, e) ↦ rw (e, gather) h
  ]

module _ (id : Bytes) (targets : List Bytes) where
  removals_of-IsWaiting :
      (stem : Bytes) (ds : List FileDecision)
      → IsWaiting id targets (removals_of id targets stem ds)
  unfolding removals_of any_b elem
  removals_of-IsWaiting stem [] = record {
    own = refl;
    targeted = λ t m. cc;
    patient = λ t m. refl;
    relied = λ t m. cc;
  }
  removals_of-IsWaiting stem (d ∷ ds) =
      let rest = removals_of-IsWaiting stem ds in
      record {
        own = ground (arith, rest.own, bytes_beq_iff id id);
        targeted = λ t m. ground (arith, rest.targeted t);
        patient = λ t m. ground (arith, rest.patient t m);
        relied = λ t m. ground (arith, rest.relied t);
      }

  removals-IsWaiting : (vs : List VariantDecision) → IsWaiting id targets (removals id targets vs)
  unfolding removals any_b elem
  removals-IsWaiting [] = record {
    own = refl;
    targeted = λ t m. cc;
    patient = λ t m. refl;
    relied = λ t m. cc;
  }
  removals-IsWaiting (v ∷ vs) =
      IsWaiting-append id targets _ _ (removals_of-IsWaiting v.stem v.decisions)
        (removals-IsWaiting vs)

nothing-IsCalm : (id : Bytes) → IsCalm id [] []
unfolding any_b elem
nothing-IsCalm id = record {
  own = refl;
  targeted = λ t m. cc;
  complete = λ t m. cc;
  calm = λ t. refl;
  reliant = λ t. refl;
}

pub finish_component-Orderly :
    (profile : DesiredProfile) (occupied : List Bytes) (gs : List StemGroup)
    (out : ComponentOutcome)
    → out.status ≡ status_ok
    → out.projected_inventory ≡ []
    → Orderly (finish_component out (gather out.component_id profile occupied nothing_gathered gs))
unfolding finish_component any_b elem
finish_component-Orderly profile occupied gs out ok inv =
    let id = out.component_id in
    let r = gather id profile occupied nothing_gathered gs in
    let c = gather-IsCalm id profile occupied gs nothing_gathered (nothing-IsCalm id) in
    elim (Option-cases r.blocked) [
      | inr (reason, e) ↦
          rw (e, finish_component)
            (record {
              idle = λ _. (refl, inv);
              owned = refl;
              waits = λ t m. refl;
              relies = λ t m. cc;
            })
      | inl e ↦
          let w = IsWaiting-sort_operations id r.targets _ (
            IsWaiting-append id r.targets r.operations _
              (record {
                own = c.own;
                targeted = c.targeted;
                patient = λ t _. c.calm t;
                relied = λ t m. cc (c.reliant t);
              })
              (removals-IsWaiting id r.targets r.variants)) in
          rw (e, finish_component)
            (record {
              idle = λ h. cc;
              owned = w.own;
              waits = λ t m. w.patient t (w.targeted t m);
              relies = λ t m. made-first t r.operations _ (c.complete t (w.relied t m));
            })
    ]
