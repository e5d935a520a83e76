-- ===== src/Examples.antt =====
-- Test data, and the theorems applied to it.
mod BodyRuns
pub mod Accounts
mod StoreRuns
mod SupervisorRuns
mod TurnRuns
mod RoutingRuns
mod ProxyRuns
mod StreamRuns
