-- ===== src/Admission.antt =====
-- admission/gate.go: the process-wide gate. Every method runs under one mutex, so a method is one
-- step: it answers the new gate and its result. `tasks` is what the session query answers: `none`
-- where no query is installed, `some none` where it fails.
pub mod Exclusion
pub mod Turns
use dorganizer.Prelude.{ℕ, ◌+◌, ◌-◌, Bool, true, false, Option, none, some, ltb, if◌then◌else◌}

pub record Gate : Type 0 where
  pub manual : Bool
  pub maint : Bool
  pub scans : ℕ

unfoldable pub new_gate : Gate
new_gate = record { manual = false; maint = false; scans = 0 }

pub data Busy : Type 0 where
  manual_in_progress maintenance_in_progress scan_running sessions_active : Busy

-- An admission, a refusal, or the failure of the session query or of the enqueued write. A request
-- of either exclusive kind names the same four reasons, in prose of its own.
pub data Answer : Type 0 where
  admitted : Answer
  busy : Busy → Answer
  query_failed write_failed : Answer

abbrev pub Query : Type 0
Query = Option (Option Bool)

unfoldable pub begin_scan : Gate → Gate × Answer
begin_scan g =
    if g.manual
    then (g, busy manual_in_progress)
    else if g.maint
    then (g, busy maintenance_in_progress)
    else (record g { scans = g.scans + 1 }, admitted)

-- The checks that file management and maintenance share, in their order.
unfoldable pub idle_check : Gate → Query → Answer
idle_check g tasks =
    if g.manual
    then busy manual_in_progress
    else if g.maint
    then busy maintenance_in_progress
    else if ltb 0 g.scans
    then busy scan_running
    else elim tasks [
      | none ↦ admitted
      | some none ↦ query_failed
      | some (some active) ↦ if active then busy sessions_active else admitted
    ]

abbrev is_admitted : Answer → Bool
is_admitted admitted = true
is_admitted _ = false

unfoldable pub begin_manual : Gate → Query → Gate × Answer
unfolding idle_check
begin_manual g tasks =
    let answer = idle_check g tasks in
    (if is_admitted answer then record g { manual = true } else g, answer)

unfoldable pub begin_maintenance : Gate → Query → Gate × Answer
unfolding idle_check
begin_maintenance g tasks =
    let answer = idle_check g tasks in
    (if is_admitted answer then record g { maint = true } else g, answer)

-- `Enqueue(fn)`: `fn` is the database write, here a function on the store that may fail.
unfoldable pub enqueue {ℓ} : {S : Type ℓ} → Gate → (S → S × Bool) → S → S × Answer
enqueue g fn s =
    if g.manual
    then (s, busy manual_in_progress)
    else if g.maint
    then (s, busy maintenance_in_progress)
    else let (s', done) = fn s in (s', if done then admitted else write_failed)

unfoldable pub release_scan : Gate → Gate
release_scan g = if ltb 0 g.scans then record g { scans = g.scans - 1 } else g

unfoldable pub release_manual : Gate → Gate
release_manual g = record g { manual = false }

unfoldable pub release_maintenance : Gate → Gate
release_maintenance g = record g { maint = false }
