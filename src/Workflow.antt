-- ===== src/Workflow.antt =====
-- src/foampilot/workflow: the stages of a run, their events on disk and the coordinator.
pub mod Records
pub mod Store
pub mod Services
pub mod Coordinator
mod Examples
