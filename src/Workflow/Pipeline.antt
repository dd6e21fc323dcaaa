-- ===== src/Workflow/Pipeline.antt =====
-- The life of a task as a sequence of stages, and a driver that starts and completes each step.
-- The driver stands for the callers of backend/src/modules/workflow: the routes and the automatic
-- advance, which call `startStep`, and the executors, which report the end of a run.
pub mod Rows
pub mod Start
pub mod Complete
pub mod End
pub mod Drive
pub mod Created
