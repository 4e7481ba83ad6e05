-- ===== src/Reconcile/Summary.antt =====
-- conversion/reconcile/reconcile.go, the summary of a step: counts and the reason they lead to.
use dorganizer.Prelude.{ℕ, ◌+◌, Bool, true, false, List, [], ◌∷◌, length, ltb, ◌≡◌}
use dorganizer.Prelude.Counting.{count_b}
use dorganizer.Reconcile.Outcome.{ComponentOutcome}
use dorganizer.Reconcile.Lenient.Component.{count_unmet}
use dorganizer.Reconcile.Plan.{
  SummaryReason, partial_plan, all_blocked, unmet_targets, actionable, no_match, Counts, is_blocked,
}

abbrev pub total : (ComponentOutcome → ℕ) → List ComponentOutcome → ℕ
total size [] = 0
total size (c ∷ cs) = size c + total size cs

abbrev pub blocks : ComponentOutcome → Bool
blocks c = is_blocked c.status

abbrev pub acts : ComponentOutcome → Bool
acts c = ltb 0 (length c.operations)

abbrev pub falls_short : ComponentOutcome → Bool
falls_short c = ltb 0 (count_unmet c.variants)

-- The reason from three facts: a component is blocked, one has operations, one misses a target.
abbrev pub reason_for : Bool → Bool → Bool → SummaryReason
reason_for true true _ = partial_plan
reason_for true false _ = all_blocked
reason_for false _ true = unmet_targets
reason_for false true false = actionable
reason_for false false false = no_match

-- The loop adds to the counters that it starts with.
record Adds (s : Counts) (cs : List ComponentOutcome) (r : Counts) : Type 0 where
  operations : r.operation_count ≡ s.operation_count + total (λ c. length c.operations) cs
  blocked : r.blocked_count ≡ s.blocked_count + count_b blocks cs
  errors : r.error_count ≡ s.error_count + count_b blocks cs
  unmet : r.unmet_targets ≡ s.unmet_targets + total (λ c. count_unmet c.variants) cs
