-- ===== src/Gateway.antt =====
-- src/resgraph/gateway: the serving gateway's policy, module by module.
pub mod Dispatch
pub mod Router
pub mod Quality
pub mod Relay
pub mod Plan
pub mod Walk
pub mod Cache
pub mod Budget
pub mod Accounts
mod Tests
