-- ===== src/Group/Streams.antt =====
-- The streams of `NodeGroup` (pkg/orchestration/k8s/nodegroup.go) and the methods that gather them.
-- Each running node is asked in a goroutine of its own, so the messages arrive in any order: the
-- order is a parameter. A client's answers are a parameter too; none stands for an error.
use beekeeper.Common.{
  ℕ, Bool, Option, none, some, List, [], ◌∷◌, if◌then◌else◌, String, In, ◌↔◌, ◌+◌,
}
use beekeeper.Common.Int.{ℤ}
use beekeeper.Common.Outcome.{Outcome, ok, err, panic, ◌>>=◌}
use beekeeper.Common.Dict.{Dict, lookup, insert, keys}
use beekeeper.Checks.Accounting.{Account, SentReceived}
use beekeeper.Checks.Topology.{Topology}
use beekeeper.Nodes.Cluster.{contains_name}

-- What a node's client answers; `Address` is swarm.Address.
pub record BeeClient (Address : Type 0) : Type 0 where
  pub addresses : Option Address
  pub accounting : Option (List (String × Account))
  pub balances : Option (List (String × ℤ))
  pub overlay : Option Address
  pub peers : Option (List Address)
  pub settlements : Option (List (String × SentReceived))
  pub topology : Option (Topology Address)
  pub has_chunk : Address → Option Bool

pub record Node (Address : Type 0) : Type 0 where
  pub name : String
  pub client : BeeClient Address

pub data StateError : Type 0 where
  orchestration_not_set request_failed : StateError

pub data GroupError : Type 0 where
  stopped_nodes_failed running_nodes_failed : GroupError
  node_failed node_not_found : (name : String) → GroupError

abbrev pub Message : Type 0 → Type 0
Message A = String × Option A

module _ {Address : Type 0} where
  -- The names of an orchestrator's answer that are nodes of the group; `ErrNotSet` is no error.
  unfoldable pub known : List String → Dict (Node Address) → List String
  known [] nodes = []
  known (v ∷ all) nodes =
      let rest = known all nodes in if contains_name (keys nodes) v then v ∷ rest else rest

  unfoldable pub stopped_nodes :
      Outcome StateError (List String) → Dict (Node Address) → Outcome GroupError (List String)
  unfolding known
  stopped_nodes (ok all) nodes = ok (known all nodes)
  stopped_nodes (err orchestration_not_set) nodes = ok []
  stopped_nodes (err request_failed) nodes = err stopped_nodes_failed
  stopped_nodes panic nodes = panic

  unfoldable pub running_nodes :
      Outcome StateError (List String) → Dict (Node Address) → Outcome GroupError (List String)
  unfolding known
  running_nodes (ok all) nodes = ok (known all nodes)
  running_nodes (err orchestration_not_set) nodes = ok []
  running_nodes (err request_failed) nodes = err running_nodes_failed
  running_nodes panic nodes = panic

  -- The messages that the goroutines of a stream send, one for each node that is not stopped.
  unfoldable pub messages :
      {A : Type 0}
      → (BeeClient Address → Option A)
      → List String
      → Dict (Node Address)
      → List (Message A)
  messages query stopped [] = []
  messages query stopped ((k, v) ∷ nodes) =
      let rest = messages query stopped nodes in
      if contains_name stopped v.name then rest else (k, query v.client) ∷ rest

-- The loop over the messages that have arrived, with the key and the value of an entry.
unfoldable pub gather :
    {A B : Type 0}
    → (String → String)
    → (A → B)
    → Dict B
    → List (Message A)
    → Outcome GroupError (Dict B)
unfolding insert
gather key value found [] = ok found
gather key value found ((n, none) ∷ arrived) = err (node_failed n)
gather key value found ((n, some a) ∷ arrived) =
    gather key value (insert (key n) (value a) found) arrived

-- `tmp[a.Peer] = a`, for each entry of a node.
unfoldable pub by_peer : {A : Type 0} → Dict A → List (String × A) → Dict A
unfolding insert
by_peer tmp [] = tmp
by_peer tmp ((peer, a) ∷ entries) = by_peer (insert peer a tmp) entries

unfoldable pub count_found : ℕ → List (Message Bool) → Outcome GroupError ℕ
count_found grf [] = ok grf
count_found grf ((n, none) ∷ arrived) = err (node_failed n)
count_found grf ((n, some found) ∷ arrived) = count_found (if found then grf + 1 else grf) arrived

-- An order of arrival: every message of a stream arrives, and nothing else.
abbrev pub Order : Type 1
Order = (A : Type 0) → List (Message A) → List (Message A)

abbrev pub IsArrival : Order → Type 1
IsArrival order =
    (A : Type 0) (sent : List (Message A)) (m : Message A) → In m (order A sent) ↔ In m sent

module _ {Address : Type 0} (order : Order) (stopped : Outcome StateError (List String))
    (overlay_text : Option Address → String) (nodes : Dict (Node Address)) where
  -- A method that asks every running node, and keeps the answers by the nodes' names.
  unfoldable pub ask : {A : Type 0} → (BeeClient Address → Option A) → Outcome GroupError (Dict A)
  unfolding stopped_nodes messages gather
  ask query = stopped_nodes stopped nodes >>= λ names.
      gather (λ n. n) (λ a. a) [] (order _ (messages query names nodes))

  unfoldable pub addresses : Outcome GroupError (Dict Address)
  unfolding ask
  addresses = ask (λ (c : BeeClient Address). c.addresses)

  unfoldable pub overlays : Outcome GroupError (Dict Address)
  unfolding ask
  overlays = ask (λ (c : BeeClient Address). c.overlay)

  unfoldable pub peers : Outcome GroupError (Dict (List Address))
  unfolding ask
  peers = ask (λ (c : BeeClient Address). c.peers)

  unfoldable pub topologies : Outcome GroupError (Dict (Topology Address))
  unfolding ask
  topologies = ask (λ (c : BeeClient Address). c.topology)

  -- A method that keeps each node's entries by peer, under the text of the node's overlay;
  -- `overlay_text none` is the text of the zero address.
  unfoldable pub ask_entries :
      {A : Type 0}
      → (BeeClient Address → Option (List (String × A)))
      → Outcome GroupError (Dict (Dict A))
  unfolding stopped_nodes messages overlays gather by_peer lookup
  ask_entries query = stopped_nodes stopped nodes >>= λ names. overlays >>= λ found.
      gather (λ n. overlay_text (lookup n found)) (by_peer []) []
        (order _ (messages query names nodes))

  unfoldable pub accounting : Outcome GroupError (Dict (Dict Account))
  unfolding ask_entries
  accounting = ask_entries (λ (c : BeeClient Address). c.accounting)

  unfoldable pub balances : Outcome GroupError (Dict (Dict ℤ))
  unfolding ask_entries
  balances = ask_entries (λ (c : BeeClient Address). c.balances)

  unfoldable pub settlements : Outcome GroupError (Dict (Dict SentReceived))
  unfolding ask_entries
  settlements = ask_entries (λ (c : BeeClient Address). c.settlements)

  unfoldable pub group_replication_factor : Address → Outcome GroupError ℕ
  unfolding stopped_nodes messages count_found
  group_replication_factor a = stopped_nodes stopped nodes >>= λ names.
      count_found 0 (order _ (messages (λ (c : BeeClient Address). c.has_chunk a) names nodes))
