-- ===== src/Pods.antt =====
-- The client of pods in pkg/k8s/pod/client.go: `Lifecycle` has the watch of one pod's recreation,
-- `Stages` the stages that a pod goes through in it and `Watch` what its result says.
pub mod Lifecycle
pub mod Stages
pub mod Watch
