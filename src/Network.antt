-- ===== src/Network.antt =====
-- The neighborhoods of pkg/check/networkavailability/check.go.
pub mod Neighborhoods
pub mod Prefixes
pub mod All
