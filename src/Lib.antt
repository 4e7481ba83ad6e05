-- ===== src/Lib.antt =====
-- A model of the conversion planner and executor of dorganizer's backend, of the sessions that
-- execute a plan, and of the gate that admits its work.
--
-- The backend (backend/go/internal) keeps an inventory of audio libraries, plans which files to
-- encode and which to remove so that every album reaches the declared profile, and runs the plan.
-- This library models the part that decides and the part that acts: the pure planner of
-- conversion/reconcile, from the stored entries to the outcomes of a plan; the executor of
-- conversion/execute, which checks a frozen component against the disk, encodes, replaces and
-- removes; the session of workset, which prepares components into a window, encodes them in one
-- pool and commits them in order; and the concurrency gate admission/gate.go, under which scans,
-- file management, maintenance and conversion sessions run.
--
-- How the planner is put together, and where its parts stand:
--   * `Reconcile` (conversion/reconcile/reconcile.go) checks the policy, keeps the audio entries,
--     parts them by the classifier, builds the components of each partition, plans each component
--     by one of two tables, sorts the outcomes and counts them: Reconcile/Plan.antt, with the
--     inventory fingerprint of fingerprint.go.
--   * types.go: Reconcile/Types.antt and Reconcile/Outcome.antt. The latter also holds the helpers
--     that both tables share (sameStemPath, dedupeDecisions, appendUnique, sortOperations,
--     projectedInventory).
--   * classifier.go: Reconcile/Classifier.antt.
--   * grouping.go: Reconcile/Grouping.antt (entries, stem groups, parent directories) and
--     Reconcile/Grouping/Components.antt (the breadth-first search of BuildComponents).
--   * measuredBitrateSatisfies and satisfiedEncoded: Reconcile/Satisfied.antt.
--   * the relaxed table, mode.go: Reconcile/Lenient.antt (one stem, lenientStem) and
--     Reconcile/Lenient/Component.antt (one component, lenientComponent).
--   * the strict table, reconcileComponent: Reconcile/Strict.antt (the plan of one group),
--     Reconcile/Strict/Lanes.antt (the lanes), Reconcile/Strict/Actions.antt (decisions and
--     operations) and Reconcile/Strict/Component.antt (the whole).
--   * what both tables promise of their operations: Reconcile/Waiting.antt (their order) and
--     Reconcile/Sources.antt (what they read); Reconcile/Exactness.antt carries the exactness of
--     the relaxed table from one component to the planner's input.
--   * pathnorm/pathnorm.go: Pathnorm.antt, on a host whose separator is the slash.
--   * conversion/execute: Execute/Toolkit.antt (the calls of the disk and the encoder, as a
--     parameter, and the laws that they document), Execute/Plan.antt (component_precheck.go up to
--     the disk: operations, conflicts, dependencies), Execute/Facts.antt (component_paths.go and
--     the request), Execute/Delete.antt (component_delete.go), Execute/Commit.antt
--     (component_commit.go) and Execute/Run.antt (component_prepare.go and component_run.go).
--     Execute/Plan/Collected.antt joins it to the planner, Execute/Commit/Keeps.antt,
--     Execute/Run/Untouched.antt and Execute/Run/Accounts.antt are about what a run does to the
--     media and what it reports.
--   * workset/execution_pool.go: Workset/OpenUnit.antt (one unit between its preparation and its
--     commit), Workset/Session.antt and Workset/Session/Loop.antt (the coordinator, with executeRun
--     of execution_worker.go from the session on), over the entries of Workset/Report.antt
--     (execution.go, execution_worker.go); Workset/Selection.antt has the selection of folders
--     (execution.go). Workset/OpenUnit/Sealing.antt has the interleavings of
--     one unit, Workset/Session/Ledger.antt, Discards.antt and Settled.antt beside it the session's
--     invariant and its ends.
--   * admission/gate.go: Admission.antt; the system of its clients in Admission/Exclusion.antt, and
--     single requests and sequences of them in Admission/Turns.antt.
--
-- How the model reads the source. A Go string is a list of bytes (Prelude/Texts.antt), and an int
-- of the source is an integer that wraps at 64 bits where the code computes with it
-- (Prelude/Int.antt). A nil pointer is `none`, a map that only answers membership is a list. A
-- loop is a recursion with the variables that it changes as arguments; a `break` ends it. A stable
-- sort is insertion sort; sort.Slice is not stable, and the code's orders are told apart by what
-- they compare up to equal keys. The functions of `path` and `strings` that the planner calls are
-- written out in GoPath.antt. What is not under src is a parameter: case mapping, Unicode folding
-- and SHA-256 are the fields of `Runtime`, and trimming, tag equality and regular expressions those
-- of `TagRuntime`; the little that a theorem needs of them is in `Laws`. The messages of errors
-- and of blocked components are left out, and the gate's mutex is the atomicity of its operations.
-- Where the relaxed table would dereference a missing source, its model sets `panicked`.
--
-- The breadth-first search runs on fuel, the number of files: every round visits one more.
--
-- The executor acts on a world that only its toolkit changes: each call answers and leaves another
-- world. The theorems that speak of files take `DiskLaws` as a hypothesis: a rename moves one file
-- or changes nothing, a removal drops one file or changes nothing, an encode writes its output
-- only. On a host whose separator is the slash, nativePath and posixForm are path.Clean. The
-- coordinator of a session sees the workers and the user as the answers of its
-- surroundings, which say before each look which tasks of the window have failed and whether the
-- user canceled; a send and a wait take either branch where both are ready. The name search of a
-- recovery file and the lock retry have the bounds of the source, the rounds of a session recur on
-- the worklist, and the wait for a unit ends by a measure that each step of it lowers.
--
-- Not modelled: the database, the HTTP interface, the encoder's process, and the services around
-- the planner and the sessions (app, inventory, library, fileops, adapters, and of workset and
-- conversion what is not named above), whose state is rows and processes; and the JSON of
-- conversion/reconcile/outcome_json.go.
pub mod Prelude
pub mod Reconcile
pub mod GoPath
pub mod Pathnorm
pub mod Admission
pub mod Execute
pub mod Workset
mod Witnesses
