-- ===== src/Execute.antt =====
-- conversion/execute: one frozen component is checked, encoded beside its targets, committed and
-- cleaned up. Paths are those of a Unix host, where `filepath` and `path` agree.
pub mod Toolkit
pub mod Plan
pub mod Facts
pub mod Fresh
pub mod Delete
pub mod Moves
pub mod Commit
pub mod Run
