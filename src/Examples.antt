-- ===== src/Examples.antt =====
-- Runs of the definitions at concrete inputs.
pub mod Machine
pub mod Graphs
pub mod Ledgers
pub mod Decisions
pub mod Analyses
pub mod Requests
pub mod Jobs
pub mod Dispatching
pub mod Proposing
pub mod Living
