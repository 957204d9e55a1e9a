-- ===== src/Agent.antt =====
-- src/foampilot/agent: what the agent does about a run that failed.
pub mod Failure
pub mod Repair
