-- ===== src/Restart.antt =====
-- The restart of nodes, pkg/restart/restart.go: `Run` has its two ways, `Grouped` the sets that it
-- finds for the nodes, `Owned` what its entries are, `Updated` the update of one set, `Restarted`
-- what an image update comes to, and `Added` and `Allowed` the calls that are made, however it ends.
pub mod Run
pub mod Grouped
pub mod Owned
pub mod Updated
pub mod Restarted
pub mod Added
pub mod Allowed
