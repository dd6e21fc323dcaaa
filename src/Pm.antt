-- ===== src/Pm.antt =====
-- backend/src/modules/pm: the policy of a project, and what to do next about an issue.
pub mod Policy
pub mod NextAction
pub mod SensitivePaths
pub mod AutoAdvance
mod Tests
