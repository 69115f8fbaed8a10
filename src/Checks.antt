-- ===== src/Checks.antt =====
-- Checks that run against a cluster, and their runner (pkg/check).
pub mod Accounting
pub mod Symmetry
pub mod Settled
pub mod Topology
pub mod Healthy
pub mod Listed
pub mod Depth
pub mod Runner
pub mod Configured
pub mod Failures
pub mod Connectivity
pub mod Connected
pub mod Cashout
pub mod Cashed
pub mod Confirmed
