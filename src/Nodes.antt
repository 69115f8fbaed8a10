-- ===== src/Nodes.antt =====
-- The nodes of a cluster: the queries of pkg/orchestration/k8s/cluster.go over its node groups, and
-- the searches for the closest node of pkg/bee and of the cluster.
pub mod Cluster
pub mod Flatten
pub mod Closest
pub mod Nearest
pub mod Named
pub mod FullNode
pub mod Peer
pub mod Search
pub mod Found
pub mod BinKey
