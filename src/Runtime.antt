-- ===== src/Runtime.antt =====
-- The execution runtime, src/foampilot/runtime.
pub mod Policy
