-- ===== src/Workflow.antt =====
-- backend/src/modules/workflow: task templates, the task engine, and the progress of a task.
pub mod Templates
pub mod Resolver
pub mod Engine
pub mod Progress
pub mod Pipeline
pub mod AutoAdvance
pub mod Dispatch
mod Tests
