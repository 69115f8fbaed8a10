-- ===== src/Setup.antt =====
-- Setting up and deleting a cluster: cmd/beekeeper/cmd/cluster.go. `Launch` has the nodes that are
-- set up or added, each in a goroutine of its own, `Results` their answers over a channel, `Cluster`
-- the whole setup, with `Answered` what a launch has come to, and `Delete` the deletion.
pub mod Names
pub mod Launch
pub mod Results
pub mod Arrivals
pub mod Channel
pub mod Delete
pub mod Cluster
pub mod Same
pub mod Members
pub mod Answered
pub mod Funding
