-- ===== src/Plans.antt =====
-- src/foampilot/plans: the plan of a native run and its safety policy.
pub mod Validation
