-- ===== src/KubeApi.antt =====
-- The clients of pods and stateful sets, pkg/k8s/pod/client.go and pkg/k8s/statefulset: `Objects` has
-- the objects and the answers of the Kubernetes API, `PodClient` and `SetClient` the clients, and
-- `Strategy` and `Deletions` what holds of them.
pub mod Objects
pub mod PodClient
pub mod SetClient
pub mod Strategy
pub mod Deletions
