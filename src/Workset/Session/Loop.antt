-- ===== src/Workset/Session/Loop.antt =====
-- How a session records a unit, stops, and runs: recordUnit, stopSession and settleHead of
-- workset/execution_pool.go and executeRun of workset/execution_worker.go, from the session on.
use dorganizer.Prelude.{
  ℕ, suc, Bool, true, false, List, [], ◌∷◌, ◌++◌, Option, none, some, Bytes, codes, is_nil,
  if◌then◌else◌, nat_beq, ltb,
}
use dorganizer.Workset.OpenUnit.{TaskError, failing}
use dorganizer.Workset.Report.{
  ExecutionUnit, ComponentStatus, pending, failed, canceled, ExecutionComponentView, UnitResult,
  apply_unit_result, apply_prepare_failure, task_failure_of, add_leftovers, mark_synced, update_at,
  entry_at, initial_component_report,
}
use dorganizer.Workset.Session.{
  Entry, SessionStop, request_stop, SessionStatus, session_succeeded, session_failed,
  session_canceled, Surroundings, SessionRun, persist_failed, look, stop_now, Filled, filled, cut,
  fill, wait, persist_unit_result,
}

abbrev result_write_attempts : ℕ
result_write_attempts = 3

-- `encodeWindow`, from the configured value and the number of processors.
unfoldable pub encode_window : ℕ → ℕ → ℕ
encode_window concurrency processors =
    if ltb 0 concurrency then concurrency else if ltb processors 4 then processors else 4

abbrev pub is_failed : ComponentStatus → Bool
is_failed failed = true
is_failed _ = false

abbrev pub is_canceled_status : ComponentStatus → Bool
is_canceled_status canceled = true
is_canceled_status _ = false

abbrev pub status_at : ℕ → List ExecutionComponentView → ComponentStatus
status_at i report = elim (entry_at i report) [ none ↦ pending | some v ↦ v.status ]

abbrev pub code_at : ℕ → List ExecutionComponentView → Bytes
code_at i report = elim (entry_at i report) [ none ↦ [] | some v ↦ v.error_code ]

abbrev pub frozen_of : List Entry → Option ExecutionUnit
frozen_of [] = none
frozen_of (e ∷ _) = some e.frozen

abbrev pub is_entry : Option Entry → Entry → Bool
is_entry none e = false
is_entry (some x) e = nat_beq x.report_idx e.report_idx

unfoldable pub entries_from : ℕ → List ExecutionUnit → List Entry
entries_from i [] = []
entries_from i (u ∷ us) = record { report_idx = i; frozen = u } ∷ entries_from (suc i) us

unfoldable pub new_session : {W : Type 0} → List ExecutionUnit → W → SessionRun W
unfolding initial_component_report
new_session units w = record {
  report = initial_component_report units;
  pool = record { stop = none; canceled = false };
  open_ = [];
  prepared_units = [];
  commits = [];
  discards = [];
  finishes = [];
  world = w;
}

abbrev pub reported_stop : Entry → Bytes → SessionStop
reported_stop head code = record {
  report_idx = head.report_idx;
  open_ = none;
  err = some (failing (some ([], code)));
  reported = true;
}

module _ {W : Type 0} (env : Surroundings W) where
  unfoldable pub persist_entry : ℕ → Option ExecutionUnit → SessionRun W → Bool × SessionRun W
  unfolding persist_unit_result entry_at
  persist_entry i next s = elim (entry_at i s.report) [
    | none ↦ (true, s)
    | some v ↦
        let (saved, w) = persist_unit_result env result_write_attempts v next s.world in
        (saved, record s { world = w })
  ]

  -- `syncUnitInventory`
  unfoldable pub sync_unit_inventory : ℕ → UnitResult → SessionRun W → SessionRun W
  unfolding update_at
  sync_unit_inventory i res s =
      let (error, w) = env.sync_inventory res s.world in
      if is_nil res.inventory_error
      then record s { report = update_at i (mark_synced error) s.report; world = w }
      else record s { report = update_at i (mark_synced res.inventory_error) s.report }

  unfoldable pub record_unit :
      ℕ → UnitResult → Option ExecutionUnit → SessionRun W → Bool × SessionRun W
  unfolding persist_entry sync_unit_inventory apply_unit_result
  record_unit i res next s = persist_entry i next (
      sync_unit_inventory i res
        (record s { report = update_at i (apply_unit_result res) s.report }))

  abbrev pub discard_entry : Entry → SessionRun W → SessionRun W
  discard_entry e s =
      let (res, w) = env.discard e.frozen none s.world in
      (persist_entry e.report_idx none (record s {
        report = update_at e.report_idx (add_leftovers res) s.report;
        discards = s.discards ++ e ∷ [];
        world = w;
      })).1

  unfoldable pub discard_open : Option Entry → List Entry → SessionRun W → SessionRun W
  unfolding persist_entry
  discard_open except [] s = s
  discard_open except (e ∷ es) s =
      let skipped = discard_open except es s in
      let rest = discard_open except es (discard_entry e s) in
      if is_entry except e then skipped else rest

  abbrev pub discard_failed : Entry → SessionStop → SessionRun W → SessionRun W
  discard_failed e stop s =
      let (res, w) = env.discard e.frozen stop.err s.world in
      (record_unit stop.report_idx res none
        (record s { discards = s.discards ++ e ∷ []; world = w })).1

  abbrev pub fail_preparation : SessionStop → TaskError → SessionRun W → SessionRun W
  fail_preparation stop err s =
      (persist_entry stop.report_idx none
        (record s { report = update_at stop.report_idx (apply_prepare_failure err) s.report })).1

  unfoldable pub report_failed_unit : SessionStop → TaskError → SessionRun W → SessionRun W
  unfolding record_unit apply_prepare_failure
  report_failed_unit stop err s =
      if stop.reported
      then s
      else elim stop.open_ [ none ↦ fail_preparation stop err s | some e ↦ discard_failed e stop s ]

  unfoldable pub finish_execution : SessionStatus → Bytes → SessionRun W → SessionRun W
  finish_execution status code s = record s {
    finishes = s.finishes ++ status ∷ [];
    world = env.finish status code s.world;
  }

  -- `shutdown`: the context is canceled and the workers return.
  unfoldable pub shutdown : SessionRun W → SessionRun W
  unfolding look
  shutdown s = let s' = look env s in record s' { pool = record s'.pool { canceled = true } }

  abbrev pub decided : Option SessionStop → SessionStop → SessionStop
  decided none observed = observed
  decided (some recorded) observed = recorded

  abbrev pub end_stopped : SessionStop → Option TaskError → SessionRun W → SessionRun W
  end_stopped stop none s =
      finish_execution session_canceled (codes "CANCELED") (discard_open none s.open_ s)
  end_stopped stop (some err) s =
      let s1 = report_failed_unit stop err s in
      let s2 = discard_open stop.open_ s.open_ s1 in
      finish_execution session_failed (code_at stop.report_idx s2.report) s2

  unfoldable pub stop_session : SessionStop → SessionRun W → SessionRun W
  unfolding shutdown report_failed_unit discard_open finish_execution
  stop_session observed s =
      let s' = shutdown s in
      let stop = decided s'.pool.stop observed in end_stopped stop stop.err s'

  unfoldable pub stop_after_head : SessionStatus → Bytes → SessionRun W → SessionRun W
  unfolding shutdown discard_open finish_execution
  stop_after_head status code s =
      let s' = shutdown s in finish_execution status code (discard_open none s'.open_ s')

  abbrev pub settle_by :
      ComponentStatus
      → (SessionRun W → SessionRun W)
      → Option SessionStop × SessionRun W
      → SessionRun W
  settle_by status next (some st, s) = stop_session st s
  settle_by status next (none, s) =
      if is_canceled_status status
      then stop_after_head session_canceled (codes "CANCELED") s
      else next s

  -- The second half of `settleHead`; `next` is the loop's next round.
  unfoldable pub settle_stop :
      ComponentStatus → (SessionRun W → SessionRun W) → SessionRun W → SessionRun W
  unfolding stop_now stop_session stop_after_head
  settle_stop status next s = settle_by status next (stop_now env s)

  abbrev pub settle_commit :
      Option TaskError
      → ComponentStatus
      → (SessionRun W → SessionRun W)
      → SessionRun W
      → SessionRun W
  settle_commit (some err) status next s = stop_after_head session_failed (task_failure_of err) s
  settle_commit none status next s = settle_stop status next s

  unfoldable pub settle_head :
      Entry → Option TaskError → (SessionRun W → SessionRun W) → SessionRun W → SessionRun W
  unfolding settle_stop request_stop
  settle_head head commit_err next s =
      let status = status_at head.report_idx s.report in
      let stop = reported_stop head (code_at head.report_idx s.report) in
      if is_failed status
      then settle_stop status next (record s { pool = request_stop stop s.pool })
      else settle_commit commit_err status next s

  -- The head commits and leaves the window, and its result is recorded with the next position.
  unfoldable pub commit_head :
      Entry
      → List Entry
      → Option ExecutionUnit
      → (SessionRun W → SessionRun W)
      → SessionRun W
      → SessionRun W
  unfolding record_unit settle_head stop_after_head look
  commit_head head others following next s =
      let ((res, err), w) = env.commit head.frozen s.pool.canceled s.world in
      let s1 = record s { open_ = others; commits = s.commits ++ head ∷ []; world = w } in
      let (saved, s2) = record_unit head.report_idx res following (look env s1) in
      if saved
      then settle_head head err next s2
      else stop_after_head session_failed (task_failure_of persist_failed) s2

  abbrev pub admit :
      Entry
      → List Entry
      → Option ExecutionUnit
      → (SessionRun W → SessionRun W)
      → Option SessionStop × SessionRun W
      → SessionRun W
  admit head others following next (some stop, s) = stop_session stop s
  admit head others following next (none, s) = commit_head head others following next s

  abbrev pub await_head :
      Entry
      → List Entry
      → Option ExecutionUnit
      → (SessionRun W → SessionRun W)
      → Option SessionStop × SessionRun W
      → SessionRun W
  await_head head others following next (some stop, s) = stop_session stop s
  await_head head others following next (none, s) =
      admit head others following next (stop_now env s)

  abbrev pub take_head :
      List Entry
      → Option ExecutionUnit
      → (SessionRun W → SessionRun W)
      → SessionRun W
      → SessionRun W
  take_head [] following next s = s  -- the window is never empty here
  take_head (head ∷ others) following next s =
      await_head head others following next (wait env head s)

  abbrev pub after_fill :
      Option ExecutionUnit
      → (List Entry → SessionRun W → SessionRun W)
      → Filled × SessionRun W
      → SessionRun W
  after_fill following next (cut stop, s) = stop_session stop s
  after_fill following next (filled rest, s) = take_head s.open_ following (next rest) s

  abbrev pub go_on : Option SessionStop → SessionRun W → SessionRun W → SessionRun W
  go_on (some st) s go = stop_session st s
  go_on none s go = go

  -- The rounds, one for each unit; `first` until the first one has written its position.
  unfoldable pub rounds : ℕ → Bool → List Entry → List Entry → SessionRun W → SessionRun W
  unfolding stop_now fill wait stop_session commit_head
  rounds window first [] rest s = finish_execution session_succeeded [] (shutdown s)
  rounds window first (u ∷ us) rest s =
      let (stop, s1) = stop_now env s in
      let s2 = if first then record s1 { world = env.position u.frozen s1.world } else s1 in
      let go =
        after_fill (frozen_of us) (λ left. rounds window false us left) (fill env window rest s2) in
      go_on stop s1 go

  unfoldable pub execute_units : ℕ → List ExecutionUnit → W → SessionRun W
  unfolding new_session entries_from rounds finish_execution
  execute_units window units w =
      let all = entries_from 0 units in
      if is_nil units
      then finish_execution session_succeeded [] (new_session units w)
      else rounds window true all all (new_session units w)
