-- ===== src/Jobs.antt =====
-- The supervision of local jobs, src/foampilot/jobs.
pub mod Records
pub mod Recovery
pub mod Worker
pub mod Finalization
pub mod Termination
