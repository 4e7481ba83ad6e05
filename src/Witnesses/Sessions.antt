-- ===== src/Witnesses/Sessions.antt =====
-- A session of three units whose second one fails to encode before the first one commits: the
-- failed unit is reported and discarded first, then the other one in the window.
use dorganizer.Prelude.{
  ℕ, suc, ◌+◌, ◌↔◌, true, false, List, [], ◌∷◌, map, none, some, codes, ◌≡◌, refl, arith, nat_beq,
  if◌then◌else◌,
}
use dorganizer.Workset.OpenUnit.{
  failing, new_open_unit, seal_locked, task_delivered, end_delivery, task_returned, committable,
}
use dorganizer.Workset.OpenUnit.Sealing.{
  Around, opened, sent, counted, ended_at, returned_well, send, count, end_, well, Reach, here,
  next, Inevitable, committable_lem, unit_seals, sealed-quiet,
}
use dorganizer.Workset.Report.{
  ExecutionUnit, UnitResult, entry_at, update_at, apply_unit_result, initial_component_report,
}
use dorganizer.Workset.Session.{ready, session_failed, Surroundings, SessionRun}
use dorganizer.Workset.Session.Loop.{entries_from, execute_units}
use dorganizer.Workset.Session.Settled.{Settled}
use dorganizer.Workset.Session.Settled.Rounds.{execute_units-Settled}

-- One task, returned before the coordinator counts it.
abbrev one_sent : Around
one_sent = sent (opened 1)

abbrev back_early : Around
back_early = returned_well 0 one_sent

abbrev all_back : Around
all_back = ended_at (counted back_early)

all_back-Reach : Reach 1 all_back
unfolding new_open_unit task_delivered end_delivery task_returned seal_locked
all_back-Reach =
    next (next (next (next here (send refl refl (ground arith))) (well 0 refl)) (count refl))
      (end_ refl refl)

committable_lem_example : (committable all_back.unit ≡ true) ↔ (
    (all_back.unit.ended ≡ true)
    × (all_back.in_flight ≡ 0)
    × (all_back.succeeded ≡ 1)
    × (all_back.failed ≡ 0))
committable_lem_example = committable_lem 1 all_back all_back-Reach

unit_seals_example : Inevitable back_early
unfolding new_open_unit task_delivered end_delivery task_returned seal_locked
unit_seals_example =
    unit_seals 1 back_early (next (next here (send refl refl (ground arith))) (well 0 refl))

sealed-quiet_example :
    (all_back.in_flight ≡ 0) × (all_back.succeeded + all_back.failed ≡ all_back.unit.delivered)
unfolding new_open_unit task_delivered end_delivery task_returned seal_locked
sealed-quiet_example = sealed-quiet 1 all_back all_back-Reach refl

abbrev result : UnitResult
result = record {
  canceled = false;
  stage = [];
  error_code = [];
  committed = codes "/m/01.mp3" ∷ [];
  removed = [];
  remaining = [];
  recovery = [];
  inventory_error = [];
}

-- Each unit has one task. The world is a clock; the unit behind the head fails at the time 9.
abbrev clocked : Surroundings ℕ
clocked = record {
  meanwhile = λ n. (
    record {
      failures =
          if nat_beq n 9
          then (1, failing (some (codes "materialize", codes "ENCODE_FAILED"))) ∷ []
          else [];
      user_canceled = false;
    },
    suc n,
  );
  prepare_unit = λ u c n. (ready 1, suc n);
  sends = λ n. (true, suc n);
  wake = λ u n. (task_returned none (end_delivery (task_delivered (new_open_unit 1))), suc n);
  commit = λ u c n. ((result, none), suc n);
  discard = λ u e n. (result, suc n);
  sync_inventory = λ r n. ([], suc n);
  save = λ v p n. (true, suc n);
  position = λ u n. suc n;
  finish = λ s c n. suc n;
}

abbrev three_units : List ExecutionUnit
three_units =
    map
      (λ i. record {
        index = i;
        id = [];
        root_path = codes "/m";
        partition = codes "matched";
        operations = 2;
      })
      (0 ∷ 1 ∷ 2 ∷ [])

execute_units-Settled_example :
    Settled (entries_from 0 three_units) (execute_units clocked 2 three_units 0)
execute_units-Settled_example = execute_units-Settled clocked 2 three_units 0 (ground arith)

abbrev ended : SessionRun ℕ
ended = execute_units clocked 2 three_units 0

three_units_run :
    (map (λ e. e.report_idx) ended.commits ≡ [])
    × (map (λ e. e.report_idx) ended.discards ≡ 1 ∷ 0 ∷ [])
    × (ended.finishes ≡ session_failed ∷ [])
unfolding execute_units entry_at update_at apply_unit_result initial_component_report new_open_unit
    task_delivered end_delivery task_returned
three_units_run = (refl, refl, refl)
