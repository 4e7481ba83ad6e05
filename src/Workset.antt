-- ===== src/Workset.antt =====
-- workset: the sessions that execute a plan. OpenUnit is one unit between its preparation and its
-- commit, Report what a session tells of its units, Session the coordinator, and Selection the
-- folders that a session is scoped to.
pub mod OpenUnit
pub mod Report
pub mod Session
pub mod Selection
