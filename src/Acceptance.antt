-- ===== src/Acceptance.antt =====
-- src/foampilot/acceptance: whether the results of a run meet the conditions that were asked for.
pub mod Conditions
pub mod Observations
pub mod Evaluator
