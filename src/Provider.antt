-- ===== src/Provider.antt =====
-- The nodes of a cluster or a namespace, pkg/node and pkg/k8s/service: `Services` has the services of a
-- namespace, `Nodes` the provider of nodes, `Selected` and `Provided` what they find.
pub mod Services
pub mod Selected
pub mod Nodes
pub mod Provided
