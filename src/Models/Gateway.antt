-- ===== src/Models/Gateway.antt =====
-- src/foampilot/models/gateway.py: one structured request over the candidates of the registry, with
-- its budget, its circuit breaker and its trace.
pub mod State
pub mod Attempt
pub mod Steps
pub mod Run
pub mod Accounts
pub mod Accounting
pub mod Rounds
pub mod Delivery
pub mod Soundness
pub mod Deferral
mod Examples
