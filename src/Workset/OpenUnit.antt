-- ===== src/Workset/OpenUnit.antt =====
-- The open unit of workset/execution_pool.go: the accounting of its encode tasks. Each operation
-- holds the unit's mutex, so it is one step.
pub mod Sealing
use dorganizer.Prelude.{
  ℕ, suc, Bool, true, false, ◌&&◌, ◌||◌, not, if◌then◌else◌, Option, none, some, Bytes, nat_beq,
  ltb, is_some,
}

-- The error of a task: the session stopping (`isCanceled`), or the work failing.
pub data TaskError : Type 0 where
  cancellation : TaskError
  failing : Option (Bytes × Bytes) → TaskError  -- a workset error with its stage and code, or another

abbrev pub is_canceled : TaskError → Bool
is_canceled cancellation = true
is_canceled (failing _) = false

pub record OpenUnit : Type 0 where
  pub expected : ℕ
  pub delivered : ℕ
  pub completed : ℕ
  pub failure : Option TaskError
  pub ended : Bool
  pub sealed : Bool  -- and its `done` channel closed

unfoldable pub new_open_unit : ℕ → OpenUnit
new_open_unit tasks = record {
  expected = tasks;
  delivered = 0;
  completed = 0;
  failure = none;
  ended = false;
  sealed = false;
}

unfoldable pub seal_locked : OpenUnit → OpenUnit
seal_locked u =
    if u.sealed || (not u.ended || ltb u.completed u.delivered)
    then u
    else record u { sealed = true }

unfoldable pub task_delivered : OpenUnit → OpenUnit
task_delivered u = record u { delivered = suc u.delivered }

unfoldable pub end_delivery : OpenUnit → OpenUnit
unfolding seal_locked
end_delivery u = seal_locked (record u { ended = true })

-- The first failure of the unit wins.
abbrev first_failure : Option TaskError → Option TaskError → Option TaskError
first_failure none err = err
first_failure (some e) err = some e

unfoldable pub task_returned : Option TaskError → OpenUnit → OpenUnit
unfolding seal_locked
task_returned err u =
    seal_locked (record u { completed = suc u.completed; failure = first_failure u.failure err })

unfoldable pub committable : OpenUnit → Bool
committable u = u.sealed && (nat_beq u.delivered u.expected && not (is_some u.failure))
