-- ===== src/Evidence.antt =====
-- src/foampilot/evidence: what a native run came to.
pub mod Assessment
