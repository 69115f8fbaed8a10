-- ===== src/Group/Running.antt =====
-- The map of nodes of a node group (pkg/orchestration/k8s/nodegroup.go): nodes are added, replaced
-- and deleted, and the clients are those of the nodes that are not stopped.
use beekeeper.Common.{
  ℕ, zero, suc, ◌≡◌, refl, Bool, true, false, Option, none, some, List, [], ◌∷◌, arith,
  if◌then◌else◌, String,
}
use beekeeper.Common.Outcome.{Outcome, ok, err, panic, ◌>>=◌, ◌>>◌}
use beekeeper.Common.Dict.{Dict, lookup, contains, insert, erase, lookup-erase}
use beekeeper.Nodes.Cluster.{contains_name}
use beekeeper.Group.Streams.{
  BeeClient, Node, StateError, GroupError, node_not_found, node_failed, stopped_nodes,
}

-- What the node orchestrator does: whether a call succeeds, and the answer of each question whether
-- a node is ready.
pub record Orchestrator : Type 0 where
  pub delete : String → Bool
  pub create : String → Bool
  pub start : String → Bool
  pub ready : ℕ → Option Bool

module _ {Address : Type 0} where
  unfoldable pub add_node : Node Address → Dict (Node Address) → Dict (Node Address)
  unfolding insert
  add_node n nodes = insert n.name n nodes

  unfoldable pub get_node : String → Dict (Node Address) → Outcome GroupError (Node Address)
  unfolding lookup
  get_node name nodes = elim (lookup name nodes) [
    | some n ↦ ok n
    | none ↦ err (node_not_found name)
  ]

  unfoldable pub set_node :
      String → Node Address → Dict (Node Address) → Outcome GroupError (Dict (Node Address))
  unfolding lookup insert
  set_node name n nodes =
      if contains name nodes then ok (insert name n nodes) else err (node_not_found name)

  -- The node goes from the map only when it has gone from the cluster.
  unfoldable pub delete_node :
      Orchestrator
      → String
      → Dict (Node Address)
      → Outcome GroupError (Unit {0}) × Dict (Node Address)
  unfolding erase
  delete_node o name nodes =
      if o.delete name then (ok tt, erase name nodes) else (err (node_failed name), nodes)

  unfoldable pub get_client : String → Dict (Node Address) → Outcome GroupError (BeeClient Address)
  unfolding get_node
  get_client name nodes = get_node name nodes >>= λ n. ok n.client

  unfoldable pub get_clients : Dict (Node Address) → Dict (BeeClient Address)
  get_clients [] = []
  get_clients ((k, v) ∷ nodes) = (k, v.client) ∷ get_clients nodes

  -- `for _, n := range stopped { delete(clients, n) }`
  unfoldable pub without : List String → Dict (BeeClient Address) → Dict (BeeClient Address)
  unfolding erase
  without [] clients = clients
  without (n ∷ stopped) clients = without stopped (erase n clients)

  unfoldable pub nodes_clients :
      Outcome StateError (List String)
      → Dict (Node Address)
      → Outcome GroupError (Dict (BeeClient Address))
  unfolding stopped_nodes without get_clients
  nodes_clients all nodes =
      stopped_nodes all nodes >>= λ stopped. ok (without stopped (get_clients nodes))

  -- `createNode`: the options that it passes on are left out.
  unfoldable pub create_node :
      Orchestrator → String → Dict (Node Address) → Outcome GroupError (Unit {0})
  unfolding get_node
  create_node o name nodes =
      get_node name nodes >> (if o.create name then ok tt else err (node_failed name))

  -- The loop of `startNode` asks until the node is ready: none in place of a result says that the
  -- node was not ready in `fuel` questions from number `i` on.
  unfoldable pub wait_ready :
      Orchestrator → ℕ → ℕ → String → Dict (Node Address) → Option (Outcome GroupError (Unit {0}))
  unfolding get_node
  wait_ready o zero i name nodes = none
  wait_ready o (suc fuel) i name nodes =
      let rest = wait_ready o fuel (suc i) name nodes in
      elim (get_node name nodes) [
        | err e ↦ some (err e)
        | panic ↦ some panic
        | ok n ↦ elim (o.ready i) [
          | none ↦ some (err (node_failed name))
          | some true ↦ some (ok tt)
          | some false ↦ rest
        ]
      ]

  unfoldable pub start_node :
      Orchestrator → ℕ → String → Dict (Node Address) → Option (Outcome GroupError (Unit {0}))
  unfolding get_node wait_ready
  start_node o fuel name nodes = elim (get_node name nodes) [
    | err e ↦ some (err e)
    | panic ↦ some panic
    | ok n ↦ if o.start name then wait_ready o fuel 0 name nodes else some (err (node_failed name))
  ]

  lookup-get_clients :
      (k : String) (nodes : Dict (Node Address))
      → lookup k (get_clients nodes)
        ≡ elim (lookup k nodes) [ none ↦ none | some v ↦ some v.client ]
  unfolding get_clients lookup
  lookup-get_clients k [] = refl
  lookup-get_clients k ((j, v) ∷ nodes) = ground (arith, lookup-get_clients k nodes)

  lookup-without :
      (k : String) (stopped : List String) (clients : Dict (BeeClient Address))
      → lookup k (without stopped clients)
        ≡ (if contains_name stopped k then none else lookup k clients)
  unfolding without
  lookup-without k [] clients = refl
  lookup-without k (n ∷ stopped) clients =
      ground (arith, lookup-without k stopped (erase n clients), lookup-erase n k clients)

  -- `NodesClients` returns the client of each node of the group whose name is not among the stopped
  -- nodes, and no other.
  pub nodes_clients-lookup :
      (all : Outcome StateError (List String)) (nodes : Dict (Node Address)) (stopped : List String)
      → stopped_nodes all nodes ≡ ok stopped
      → (clients : Dict (BeeClient Address)) × (nodes_clients all nodes ≡ ok clients)
        × ((k : String)
            → lookup k clients ≡ (
                if contains_name stopped k
                then none
                else elim (lookup k nodes) [ none ↦ none | some v ↦ some v.client ]))
  unfolding nodes_clients
  nodes_clients-lookup all nodes stopped h = (
    without stopped (get_clients nodes),
    rw h refl,
    λ k. rw (lookup-without k stopped (get_clients nodes), lookup-get_clients k nodes) refl,
  )
