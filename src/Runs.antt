-- ===== src/Runs.antt =====
-- backend/src/modules/runs: what the workflow reads from the events of a run.
pub mod AgentOutput
pub mod EnvText
mod Tests
