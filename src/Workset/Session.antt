-- ===== src/Workset/Session.antt =====
-- The coordinator of a session: sessionRun and encodePool of workset/execution_pool.go, and the loop
-- of executeRun in workset/execution_worker.go. What the workers and the user did since the
-- coordinator last looked is an answer of its surroundings.
pub mod Loop
pub mod Ledger
pub mod Discards
pub mod Settled
use dorganizer.Prelude.{
  ℕ, zero, suc, ◌+◌, Bool, true, false, ◌&&◌, ◌||◌, not, List, [], ◌∷◌, ◌++◌, map, length, Option,
  none, some, Bytes, codes, is_nil, if◌then◌else◌, is_some, nat_beq, ltb, filter_b,
}
use dorganizer.Workset.OpenUnit.{
  TaskError, cancellation, failing, is_canceled, OpenUnit, committable,
}
use dorganizer.Workset.Report.{
  ExecutionUnit, ComponentStatus, failed, canceled, ExecutionComponentView, UnitResult,
  apply_unit_result, apply_prepare_failure, task_failure_of, add_leftovers, mark_synced, update_at,
  entry_at, initial_component_report,
}

-- A frozen unit with its place in the report, which is also what an open unit is known by.
pub record Entry : Type 0 where
  pub report_idx : ℕ
  pub frozen : ExecutionUnit

-- Without an error it is the user's cancellation.
pub record SessionStop : Type 0 where
  pub report_idx : ℕ
  pub open_ : Option Entry
  pub err : Option TaskError
  pub reported : Bool

abbrev pub canceled_stop : SessionStop
canceled_stop = record { report_idx = 0; open_ = none; err = none; reported = false }

pub record Pool : Type 0 where
  pub stop : Option SessionStop
  pub canceled : Bool  -- the session's context

-- The first real failure is recorded, once.
unfoldable pub request_stop : SessionStop → Pool → Pool
request_stop s p = if is_some p.stop then p else record { stop = some s; canceled = true }

pub data Prepared : Type 0 where
  ready : ℕ → Prepared  -- the number of encode tasks
  refused : TaskError → Prepared

-- What others did meanwhile: the tasks that failed, by the place of their unit in the window, and
-- whether the user canceled.
pub record Meanwhile : Type 0 where
  pub failures : List (ℕ × TaskError)
  pub user_canceled : Bool

pub data SessionStatus : Type 0 where
  session_succeeded session_failed session_canceled : SessionStatus

-- The task, the repository, the encoder workers and the clock; a call is told whether the context
-- is canceled where it takes it.
pub record Surroundings (W : Type 0) : Type 0 where
  pub meanwhile : W → Meanwhile × W
  pub prepare_unit : ExecutionUnit → Bool → W → Prepared × W
  pub sends : W → Bool × W  -- which branch a `select` takes when both are ready
  pub wake : ExecutionUnit → W → OpenUnit × W  -- the head's accounting when the wait ends
  pub commit : ExecutionUnit → Bool → W → (UnitResult × Option TaskError) × W
  pub discard : ExecutionUnit → Option TaskError → W → UnitResult × W
  pub sync_inventory : UnitResult → W → Bytes × W  -- the text of the error, empty for none
  pub save : ExecutionComponentView → Option ExecutionUnit → W → Bool × W
  pub position : ExecutionUnit → W → W
  pub finish : SessionStatus → Bytes → W → W

-- The session with its window, and the calls that it made: the units that the task prepared, those
-- that were told to commit and to discard, and the terminal writes.
pub record SessionRun (W : Type 0) : Type 0 where
  pub report : List ExecutionComponentView
  pub pool : Pool
  pub open_ : List Entry
  pub prepared_units : List Entry
  pub commits : List Entry
  pub discards : List Entry
  pub finishes : List SessionStatus
  pub world : W

abbrev pub persist_failed : TaskError
persist_failed = failing (some ([], codes "RESULT_PERSIST_FAILED"))

abbrev pub task_stop : Entry → TaskError → SessionStop
task_stop e err = record {
  report_idx = e.report_idx;
  open_ = some e;
  err = some err;
  reported = false;
}

-- `work` on a task that failed: a place outside the window is no task.
abbrev pub note_failure : Option Entry → TaskError → Pool → Pool
note_failure none err p = p
note_failure (some e) err p = if is_canceled err then p else request_stop (task_stop e err) p

unfoldable pub note_failures : List Entry → List (ℕ × TaskError) → Pool → Pool
unfolding entry_at request_stop
note_failures window [] p = p
note_failures window ((at, err) ∷ fs) p =
    note_failures window fs (note_failure (entry_at at window) err p)

-- `recordedStop`, or the user's cancellation.
abbrev pub pending_stop : Option SessionStop → Bool → Option SessionStop
pending_stop (some s) canceled_ = some s
pending_stop none canceled_ = if canceled_ then some canceled_stop else none

pub data Filled : Type 0 where
  filled : List Entry → Filled  -- the units that wait outside the window
  cut : SessionStop → Filled

module _ {W : Type 0} (env : Surroundings W) where
  unfoldable pub look : SessionRun W → SessionRun W
  unfolding note_failures
  look s =
      let (m, w) = env.meanwhile s.world in
      let p = note_failures s.open_ m.failures s.pool in
      record s { pool = record p { canceled = p.canceled || m.user_canceled }; world = w }

  unfoldable pub stop_now : SessionRun W → Option SessionStop × SessionRun W
  unfolding look
  stop_now s = let s' = look s in (pending_stop s'.pool.stop s'.pool.canceled, s')

  abbrev pub or_canceled : Option SessionStop × SessionRun W → Option SessionStop × SessionRun W
  or_canceled (some stop, s) = (some stop, s)
  or_canceled (none, s) = (some canceled_stop, s)

  -- The deliveries of one unit; a send can lose only to a canceled context.
  unfoldable pub deliver_all : ℕ → SessionRun W → Option SessionStop × SessionRun W
  unfolding stop_now
  deliver_all zero s = (none, s)
  deliver_all (suc n) s =
      let s' = look s in
      let (won, w) = env.sends s'.world in
      let rest = deliver_all n (record s' { world = w }) in
      if s'.pool.canceled && not won then or_canceled (stop_now (record s' { world = w })) else rest

  abbrev pub prepare_stop : Entry → TaskError → SessionStop
  prepare_stop e err = record {
    report_idx = e.report_idx;
    open_ = none;
    err = some err;
    reported = false;
  }

  abbrev pub open_unit : Entry → Prepared → SessionRun W → Option SessionStop × SessionRun W
  open_unit e (refused err) s =
      if is_canceled err
      then (some canceled_stop, s)
      else (some (prepare_stop e err), record s { pool = request_stop (prepare_stop e err) s.pool })
  open_unit e (ready tasks) s =
      deliver_all tasks
        (record s { open_ = s.open_ ++ e ∷ []; prepared_units = s.prepared_units ++ e ∷ [] })

  unfoldable pub prepare : Entry → SessionRun W → Option SessionStop × SessionRun W
  unfolding deliver_all request_stop
  prepare e s =
      let (p, w) = env.prepare_unit e.frozen s.pool.canceled s.world in
      open_unit e p (record s { world = w })

  abbrev pub cut_by :
      Option SessionStop → SessionRun W → Filled × SessionRun W → Filled × SessionRun W
  cut_by none s rest = rest
  cut_by (some st) s rest = (cut st, s)

  -- The window takes units while there is room.
  unfoldable pub fill : ℕ → List Entry → SessionRun W → Filled × SessionRun W
  unfolding prepare
  fill window [] s = (filled [], s)
  fill window (e ∷ es) s =
      let (stop, s') = prepare e s in
      let rest = fill window es s' in
      if ltb (length s.open_) window then cut_by stop s' rest else (filled (e ∷ es), s)

  abbrev pub awakened : Bool → Option SessionStop → Option SessionStop
  awakened may_commit (some st) = some st
  awakened may_commit none = if may_commit then none else some canceled_stop

  unfoldable pub wait : Entry → SessionRun W → Option SessionStop × SessionRun W
  unfolding stop_now committable
  wait head s =
      let (u, w) = env.wake head.frozen s.world in
      let (stop, s') = stop_now (record s { world = w }) in (awakened (committable u) stop, s')

  -- `persistUnitResult`, with the attempts that are left.
  unfoldable pub persist_unit_result :
      ℕ → ExecutionComponentView → Option ExecutionUnit → W → Bool × W
  persist_unit_result zero entry next w = (false, w)
  persist_unit_result (suc left) entry next w =
      let (saved, w') = env.save entry next w in
      let again = persist_unit_result left entry next w' in if saved then (true, w') else again
