-- ===== src/Workset/Report.antt =====
-- The report of a session: ExecutionComponentView of workset/execution.go and what
-- workset/execution_worker.go writes into it. Messages are left out.
use dorganizer.Prelude.{
  ℕ, zero, suc, ◌+◌, Bool, true, false, ◌&&◌, List, [], ◌∷◌, ◌++◌, map, length, Option, none, some,
  Bytes, codes, is_nil, if◌then◌else◌, nat_beq, ltb, leb,
}
use dorganizer.Workset.OpenUnit.{TaskError, failing}

-- The payload of a unit is the business of its task.
pub record ExecutionUnit : Type 0 where
  pub index : ℕ
  pub id : Bytes
  pub root_path : Bytes
  pub partition : Bytes
  pub operations : ℕ

pub data ComponentStatus : Type 0 where
  pending succeeded failed canceled : ComponentStatus

pub record ExecutionComponentView : Type 0 where
  pub component_index : ℕ
  pub component_id : Bytes
  pub root_path : Bytes
  pub partition : Bytes
  pub status : ComponentStatus
  pub stage : Bytes
  pub operations : ℕ
  pub completed_ops : ℕ
  pub committed : List Bytes
  pub removed : List Bytes
  pub remaining : List Bytes
  pub recovery : List Bytes
  pub error_code : Bytes
  pub inventory_synced : Bool
  pub inventory_sync_error : Bytes

-- What a task reports of one unit, without the rows for the inventory.
pub record UnitResult : Type 0 where
  pub canceled : Bool
  pub stage : Bytes
  pub error_code : Bytes
  pub committed : List Bytes
  pub removed : List Bytes
  pub remaining : List Bytes
  pub recovery : List Bytes
  pub inventory_error : Bytes

abbrev pub initial_view : ExecutionUnit → ExecutionComponentView
initial_view u = record {
  component_index = u.index;
  component_id = u.id;
  root_path = u.root_path;
  partition = u.partition;
  status = pending;
  stage = [];
  operations = u.operations;
  completed_ops = 0;
  committed = [];
  removed = [];
  remaining = [];
  recovery = [];
  error_code = [];
  inventory_synced = false;
  inventory_sync_error = [];
}

unfoldable pub initial_component_report : List ExecutionUnit → List ExecutionComponentView
initial_component_report units = map initial_view units

unfoldable pub apply_unit_result : UnitResult → ExecutionComponentView → ExecutionComponentView
apply_unit_result res entry = record entry {
  committed = res.committed;
  removed = res.removed;
  remaining = res.remaining;
  recovery = res.recovery;
  completed_ops = length res.committed + length res.removed;
  stage = res.stage;
  error_code = res.error_code;
  status = if res.canceled then canceled else if is_nil res.error_code then succeeded else failed;
}

abbrev component_failed : Bytes
component_failed = codes "COMPONENT_FAILED"

unfoldable pub apply_prepare_failure : TaskError → ExecutionComponentView → ExecutionComponentView
apply_prepare_failure (failing (some (stage, code))) entry = record entry {
  status = failed;
  stage = stage;
  error_code = code;
}
apply_prepare_failure _ entry = record entry { status = failed; error_code = component_failed }

-- The code of `taskFailureOf`.
unfoldable pub task_failure_of : TaskError → Bytes
task_failure_of (failing (some (stage, code))) = code
task_failure_of _ = component_failed

-- What a discarded unit adds to its entry.
abbrev pub add_leftovers : UnitResult → ExecutionComponentView → ExecutionComponentView
add_leftovers res entry = record entry {
  remaining = entry.remaining ++ res.remaining;
  recovery = entry.recovery ++ res.recovery;
}

-- The two ends of `syncUnitInventory`.
abbrev pub mark_synced : Bytes → ExecutionComponentView → ExecutionComponentView
mark_synced error entry =
    if is_nil error
    then record entry { inventory_synced = true }
    else record entry { inventory_synced = false; inventory_sync_error = error }

-- An entry of the report; an index outside it does not occur, and changes nothing.
unfoldable pub update_at {ℓ} : {A : Type ℓ} → ℕ → (A → A) → List A → List A
update_at n f [] = []
update_at zero f (x ∷ xs) = f x ∷ xs
update_at (suc n) f (x ∷ xs) = x ∷ update_at n f xs

unfoldable pub entry_at {ℓ} : {A : Type ℓ} → ℕ → List A → Option A
entry_at n [] = none
entry_at zero (x ∷ xs) = some x
entry_at (suc n) (x ∷ xs) = entry_at n xs

-- `pageUnits`: the units of a page; a limit of zero has no end.
unfoldable pub page_from : ℕ → ℕ → ℕ → List ExecutionUnit → List ExecutionUnit
page_from from_index limit taken [] = []
page_from from_index limit taken (u ∷ us) =
    let skipped = page_from from_index limit taken us in
    let rest = page_from from_index limit (suc taken) us in
    if ltb u.index from_index
    then skipped
    else if ltb 0 limit && leb limit taken
    then []
    else u ∷ rest

unfoldable pub page_units : List ExecutionUnit → ℕ → ℕ → List ExecutionUnit
unfolding page_from
page_units units from_index limit =
    if nat_beq from_index 0 && nat_beq limit 0 then units else page_from from_index limit 0 units
