-- ===== src/Reconcile.antt =====
-- The audio planner, backend/go/internal/conversion/reconcile: one module for each part of it.
pub mod Types
pub mod Satisfied
pub mod Outcome
pub mod Effects
pub mod Grouping
pub mod Classifier
pub mod Lenient
pub mod Strict
pub mod Plan
pub mod Waiting
pub mod Exactness
pub mod Tags
pub mod Summary
pub mod Sources
pub mod Accepted
