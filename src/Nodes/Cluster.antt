-- ===== src/Nodes/Cluster.antt =====
-- The queries of `Cluster` (pkg/orchestration/k8s/cluster.go). A node group is an interface, whose
-- answers are a parameter: a record of what each of its methods returns.
use beekeeper.Common.{
  ℕ, zero, suc, Bool, false, not, ◌&&◌, ◌||◌, Option, none, some, List, [], ◌∷◌, ◌++◌,
  if◌then◌else◌, String, str_eq, length,
}
use beekeeper.Common.Int.{ℤ, pos, ◌+ℤ◌, wrap64}
use beekeeper.Common.Outcome.{Outcome, ok, err, panic, ◌>>=◌}
use beekeeper.Common.Dict.{Dict, lookup, contains, insert, keys}
use beekeeper.Checks.Accounting.{copy, Account, SentReceived}
use beekeeper.Checks.Topology.{Topology}

pub record NodeConfig : Type 0 where
  pub full_node : Bool
  pub bootnode_mode : Bool

-- `address` and `client` stand for swarm.Address and *bee.Client.
module _ (Address Client : Type 0) where
  pub record Node : Type 0 where
    pub name : String
    pub config : NodeConfig
    pub client : Client

  pub data ClusterError : Type 0 where
    node_group : (group : String) → ClusterError
    nodes_clients_failed stopped_nodes_failed group_failed no_overlay : ClusterError
    already_present not_found : (name : String) → ClusterError
    no_closest_full_node : ClusterError

  pub record NodeGroup : Type 0 where
    pub nodes : Dict Node
    pub nodes_clients : Outcome ClusterError (Dict Client)
    pub stopped_nodes : Outcome ClusterError (List String)
    pub addresses : Outcome ClusterError (Dict Address)
    pub accounting : Outcome ClusterError (Dict (Dict Account))
    pub balances : Outcome ClusterError (Dict (Dict ℤ))
    pub overlays : Outcome ClusterError (Dict Address)
    pub peers : Outcome ClusterError (Dict (List Address))
    pub settlements : Outcome ClusterError (Dict (Dict SentReceived))
    pub topologies : Outcome ClusterError (Dict (Topology Address))
    pub group_replication_factor : Address → Outcome ClusterError ℤ
    pub size : ℤ

abbrev pub contains_name : List String → String → Bool
contains_name [] e = false
contains_name (x ∷ s) e = str_eq x e || contains_name s e

module _ {Address Client : Type 0} where
  -- `fmt.Errorf("%s: %w", k, err)` around an error of the group `k`.
  unfoldable pub of_group :
      {A : Type 0}
      → String
      → Outcome (ClusterError Address Client) A
      → Outcome (ClusterError Address Client) A
  of_group k (ok a) = ok a
  of_group k (err e) = err (node_group k)
  of_group k panic = panic

  -- The loop that `Addresses`, `Accounting`, `Balances`, `Overlays`, `Peers`, `Settlements` and
  -- `Topologies` share: one query of each group that is not excluded.
  unfoldable pub collect :
      {A : Type 0}
      → (NodeGroup Address Client → Outcome (ClusterError Address Client) A)
      → List String
      → Dict (NodeGroup Address Client)
      → Outcome (ClusterError Address Client) (Dict A)
  unfolding of_group
  collect query exclude [] = ok []
  collect query exclude ((k, v) ∷ groups) =
      let rest = collect query exclude groups in
      if contains_name exclude k
      then rest
      else (of_group k (query v) >>= λ a. rest >>= λ found. ok ((k, a) ∷ found))

  -- The two nested loops of the `Flatten` methods.
  unfoldable pub flatten_row :
      {A : Type 0} → Dict A → Dict A → Outcome (ClusterError Address Client) (Dict A)
  unfolding lookup insert
  flatten_row found [] = ok found
  flatten_row found ((n, a) ∷ row) =
      if contains n found then err (already_present n) else flatten_row (insert n a found) row

  unfoldable pub flatten_rows :
      {A : Type 0} → Dict A → Dict (Dict A) → Outcome (ClusterError Address Client) (Dict A)
  unfolding flatten_row
  flatten_rows found [] = ok found
  flatten_rows found ((_, row) ∷ rows) =
      flatten_row found row >>= λ found'. flatten_rows found' rows

module _ {Address Client : Type 0} (node_groups : Dict (NodeGroup Address Client)) where
  abbrev Result : Type 0 → Type 0
  Result A = Outcome (ClusterError Address Client) A

  unfoldable pub addresses : Result (Dict (Dict Address))
  unfolding collect
  addresses = collect (λ (g : NodeGroup Address Client). g.addresses) [] node_groups

  unfoldable pub accounting : Result (Dict (Dict (Dict Account)))
  unfolding collect
  accounting = collect (λ (g : NodeGroup Address Client). g.accounting) [] node_groups

  unfoldable pub balances : Result (Dict (Dict (Dict ℤ)))
  unfolding collect
  balances = collect (λ (g : NodeGroup Address Client). g.balances) [] node_groups

  unfoldable pub overlays : List String → Result (Dict (Dict Address))
  unfolding collect
  overlays exclude = collect (λ (g : NodeGroup Address Client). g.overlays) exclude node_groups

  unfoldable pub peers : List String → Result (Dict (Dict (List Address)))
  unfolding collect
  peers exclude = collect (λ (g : NodeGroup Address Client). g.peers) exclude node_groups

  unfoldable pub settlements : Result (Dict (Dict (Dict SentReceived)))
  unfolding collect
  settlements = collect (λ (g : NodeGroup Address Client). g.settlements) [] node_groups

  unfoldable pub topologies : Result (Dict (Dict (Topology Address)))
  unfolding collect
  topologies = collect (λ (g : NodeGroup Address Client). g.topologies) [] node_groups

  unfoldable pub flatten_accounting : Result (Dict (Dict Account))
  unfolding accounting flatten_rows
  flatten_accounting = accounting >>= flatten_rows []

  unfoldable pub flatten_balances : Result (Dict (Dict ℤ))
  unfolding balances flatten_rows
  flatten_balances = balances >>= flatten_rows []

  unfoldable pub flatten_settlements : Result (Dict (Dict SentReceived))
  unfolding settlements flatten_rows
  flatten_settlements = settlements >>= flatten_rows []

  unfoldable pub flatten_topologies : Result (Dict (Topology Address))
  unfolding topologies flatten_rows
  flatten_topologies = topologies >>= flatten_rows []

  -- All groups are queried; the excluded ones are left out of the second loop only.
  unfoldable pub not_excluded : {A : Type 0} → List String → Dict A → Dict A
  not_excluded exclude [] = []
  not_excluded exclude ((k, v) ∷ m) =
      let rest = not_excluded exclude m in if contains_name exclude k then rest else (k, v) ∷ rest

  unfoldable pub flatten_overlays : List String → Result (Dict Address)
  unfolding overlays not_excluded flatten_rows
  flatten_overlays exclude = overlays [] >>= λ o. flatten_rows [] (not_excluded exclude o)

  unfoldable pub add_factors : Address → ℤ → Dict (NodeGroup Address Client) → Result ℤ
  unfolding of_group
  add_factors a grf [] = ok grf
  add_factors a grf ((k, v) ∷ groups) = of_group k (v.group_replication_factor a) >>= λ ngrf.
      add_factors a (wrap64 (grf +ℤ ngrf)) groups

  unfoldable pub global_replication_factor : Address → Result ℤ
  unfolding add_factors
  global_replication_factor a = add_factors a (pos 0) node_groups

  unfoldable pub copy_nodes :
      Dict (Node Address Client) → Dict (NodeGroup Address Client) → Dict (Node Address Client)
  unfolding copy
  copy_nodes n [] = n
  copy_nodes n ((_, ng) ∷ groups) = copy_nodes (copy n ng.nodes) groups

  unfoldable pub nodes : Dict (Node Address Client)
  unfolding copy_nodes
  nodes = copy_nodes [] node_groups

  unfoldable pub add_names : List String → Dict (NodeGroup Address Client) → List String
  add_names names [] = names
  add_names names ((_, ng) ∷ groups) = add_names (names ++ keys ng.nodes) groups

  unfoldable pub node_names : List String
  unfolding add_names
  node_names = add_names [] node_groups

  unfoldable pub is_full : NodeConfig → Bool
  is_full cfg = cfg.full_node && not cfg.bootnode_mode

  unfoldable pub names_of : (NodeConfig → Bool) → Dict (Node Address Client) → List String
  names_of wanted [] = []
  names_of wanted ((name, node) ∷ m) =
      let rest = names_of wanted m in if wanted node.config then name ∷ rest else rest

  unfoldable pub light_node_names : List String
  unfolding names_of nodes
  light_node_names = names_of (λ cfg. not cfg.full_node) nodes

  unfoldable pub full_node_names : List String
  unfolding names_of nodes is_full
  full_node_names = names_of is_full nodes

  unfoldable pub copy_clients : Dict Client → Dict (NodeGroup Address Client) → Result (Dict Client)
  unfolding copy
  copy_clients clients [] = ok clients
  copy_clients clients ((_, ng) ∷ groups) = elim ng.nodes_clients [
    | ok ngc ↦ copy_clients (copy clients ngc) groups
    | err e ↦ err nodes_clients_failed
    | panic ↦ panic
  ]

  unfoldable pub nodes_clients : Result (Dict Client)
  unfolding copy_clients
  nodes_clients = copy_clients [] node_groups

  unfoldable pub find_node_group : String → Result (NodeGroup Address Client)
  unfolding lookup
  find_node_group name = elim (lookup name node_groups) [
    | some ng ↦ ok ng
    | none ↦ err (not_found name)
  ]

  -- The nodes of a group that are not stopped.
  unfoldable pub running : List String → Dict (Node Address Client) → List (Node Address Client)
  running stopped [] = []
  running stopped ((_, v) ∷ m) =
      let rest = running stopped m in if contains_name stopped v.name then rest else v ∷ rest

  unfoldable pub running_nodes :
      Dict (NodeGroup Address Client) → Result (List (Node Address Client))
  unfolding running
  running_nodes [] = ok []
  running_nodes ((_, ng) ∷ groups) =
      let rest = running_nodes groups in
      elim ng.stopped_nodes [
        | ok stopped ↦ rest >>= λ more. ok (running stopped ng.nodes ++ more)
        | err e ↦ err stopped_nodes_failed
        | panic ↦ panic
      ]

  unfoldable pub at : {A : Type 0} → List A → ℕ → Option A
  at [] i = none
  at (x ∷ xs) zero = some x
  at (x ∷ xs) (suc i) = at xs i

  -- `nodes[r.Intn(len(nodes))]`, where `Intn` panics at 0.
  unfoldable pub random_node : (ℕ → ℕ) → Result (Node Address Client)
  unfolding running_nodes at
  random_node intn = running_nodes node_groups >>= λ found. elim (at found (intn (length found))) [
    | some node ↦ ok node
    | none ↦ panic
  ]

  unfoldable pub add_sizes : ℤ → Dict (NodeGroup Address Client) → ℤ
  add_sizes size [] = size
  add_sizes size ((_, ng) ∷ groups) = add_sizes (wrap64 (size +ℤ ng.size)) groups

  unfoldable pub cluster_size : ℤ
  unfolding add_sizes
  cluster_size = add_sizes (pos 0) node_groups
