-- ===== src/Group.antt =====
-- A node group of pkg/orchestration/k8s/nodegroup.go: its map of nodes, and the queries that go to
-- all of its nodes at once.
pub mod Streams
pub mod Arrival
pub mod Members
pub mod Running
