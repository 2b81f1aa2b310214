-- ===== src/Flow.antt =====
-- The package flow: the checks of a step graph, admission and routing, retry delays, checkpoints.
pub mod Step
pub mod Graph
pub mod Retry
pub mod Admission
pub mod Verdicts
pub mod Routes
pub mod Rules
pub mod Failures
pub mod Execution
pub mod Cycles
pub mod Checkpoint
pub mod Runner
