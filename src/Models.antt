-- ===== src/Models.antt =====
-- The model boundary, src/foampilot/models.
pub mod Errors
pub mod CircuitBreaker
pub mod Budgets
pub mod Registry
pub mod Gateway
