-- ===== src/Witnesses.antt =====
-- Concrete inputs, what the program does on them, and the theorems at these inputs.
mod Samples
mod Relaxed
mod Satisfaction
mod Gates
mod Stems
mod Planning
mod Twins
mod Execution
mod Sessions
mod Paths
