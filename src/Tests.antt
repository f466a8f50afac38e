-- ===== src/Tests.antt =====
-- Concrete inputs, and a run of each theorem on one of them.
pub mod Conditions
pub mod Maps
pub mod Clusters
pub mod Statuses
pub mod Secrets
pub mod Runs
pub mod Events
pub mod Gardens
pub mod Handlers
pub mod Updates
pub mod Reports
pub mod Settled
pub mod Watches
pub mod Isolated
pub mod Copies
pub mod Machine
pub mod Renewals
pub mod Wiring
pub mod Owned
pub mod Connected
pub mod Process
