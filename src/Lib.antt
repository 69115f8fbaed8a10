-- ===== src/Lib.antt =====
-- A model of Beekeeper, which sets up clusters of Bee nodes, checks them and keeps their postage
-- batches alive, and theorems on it.
--
-- The parts, with the files of the repository that they follow:
--
-- - Config: pkg/config/config.go. `read` joins the files' maps, the first declaration of a name
--   winning, and merges the profiles of bees, node groups and clusters into their parents
--   (`mergeConfigs`). A profile is its parent's name and its pointer fields in order; a Go map is an
--   association list (Common/Dict), whose order stands for the order of one `range` over it. The
--   theorems hold for every list, so for every order. `yaml.Unmarshal` is a parameter.
-- - Random: pkg/random/random.go. `get_random` is `GetRandom` with the range after `abs` and the
--   swap, over a source that is a parameter; the endless loop runs on fuel, one for each draw, and
--   `get_random-returns` says how many draws are enough.
-- - Stamper: pkg/stamper and the batch of pkg/bee/api/postage.go. Node holds the operations on one
--   node, which log each call of the node's API that changes a batch; Client runs them on all nodes.
--   Prices and times are int64 and wrap; a float64 threshold is a fraction; Seconds has the rounding
--   of `time.Duration.Seconds`. The API's answers are a parameter.
-- - Swap: pkg/swap/block.go and cache.go, from which the stamper has its block time. Float has the
--   float64 operations on integers that the average needs, Hex the parsing of an answer. The
--   endpoint is a parameter, and so is what a conversion of ±Inf or NaN to int64 gives. The loop of
--   retries runs on one more fuel than the first offset, which is never used up.
-- - Checks: pkg/check/balances, settlements and kademlia. Accounting has the tests of balances,
--   thresholds and settlements, Settled the retries and rounds of the settlements check over a
--   parameter for what the cluster answers, Topology the static and the dynamic kademlia check over
--   the package swarm's `Equal` and `Proximity`, Runner the check runner of pkg/check/runner.go, and
--   Connectivity the check of pkg/check/fullconnectivity, and Cashout that of pkg/check/cashout.
-- - Nodes: pkg/orchestration/k8s/cluster.go, whose queries go to node groups that are a parameter,
--   and the searches for the closest node in pkg/bee/chunk.go and pkg/bee/file.go over the package
--   swarm's `DistanceCmp`. FullNode has the search for the closest full node, whose loop of retries
--   runs on fuel, 33 and one for each node: each pass but the last skips another node or goes to
--   another bin, so it is never used up.
-- - Group: pkg/orchestration/k8s/nodegroup.go. Streams has the queries that go to every running node
--   at once, whose answers arrive in an order that is a parameter; Running the map of nodes and the
--   start of a node. The loop of `startNode` has no end in the code and runs on fuel here, one for
--   each question; `start_node-returns` says how many are enough.
-- - Purchase: the purchases and changes of batches in pkg/bee/client.go, whose waits ask the node a
--   bounded number of times.
-- - Nuker: pkg/nuker. Update has the update and the rollback of one stateful set, Sets the
--   loop over the sets that a list names, Run the run over the sets of the nodes, which gives each set
--   a neighborhood, and Given what becomes of the sets one after the other. What the Kubernetes API does with each call and the attempts of a retry are
--   parameters, and so is the fuel for the draws of a random number.
-- - Pods: the watch of a pod's recreation in pkg/k8s/pod/client.go. The events that arrive before
--   the deadline are a list; an end of that list is the deadline or the end of the context.
-- - KubeApi: the clients of pods and stateful sets in pkg/k8s/pod/client.go and pkg/k8s/statefulset.
--   The answers of the Kubernetes API are a parameter, which may depend on the log of the calls so far
--   that have changed an object.
-- - Provider: the provider of nodes in pkg/node, over the services of pkg/k8s/service, the ingresses
--   and the filter of pkg/orchestration/cluster.go. The order of names is a parameter.
-- - Restart: pkg/restart/restart.go, which uses both clients. The order of the range over the map of
--   stateful sets is a parameter.
-- - Setup: cmd/beekeeper/cmd/cluster.go. Names has the names of nodes and configurations, Launch one
--   node's setup, Results the gathering of the goroutines' results, Channel a step relation of the
--   senders and the receiver of an unbuffered channel, Cluster and Delete the two commands. The order
--   in which goroutines answer, each of them once, is a parameter, and so is what the cluster does with
--   each call.
-- - Network: the neighborhoods of pkg/check/networkavailability/check.go.
-- - Examples: runs of the definitions and the theorems at concrete inputs.
--
-- Common has what the parts share: Boolean tests on the native numbers, int64 as integers that
-- `wrap64` brings back into range (Int), the outcomes of a Go call, a value, an error or a panic
-- (Outcome), and maps (Dict). Error texts are constructors; logging, metrics, tracing and sleeping
-- are left out, since they change no state of the program. Not modelled are the other Kubernetes
-- objects, the HTTP client, the rest of the command line, the simulations and the checks that only
-- drive uploads and downloads.

pub mod Common
pub mod Config
pub mod Random
pub mod Stamper
pub mod Swap
pub mod Checks
pub mod Nodes
pub mod Group
pub mod Purchase
pub mod Nuker
pub mod Examples
pub mod Pods
pub mod Setup
pub mod KubeApi
pub mod Restart
pub mod Network
pub mod Provider
