-- ===== src/Checks/Connectivity.antt =====
-- The full connectivity check of pkg/check/fullconnectivity/fullconnectivity.go, over what the
-- cluster answers. `equal` is swarm.Address's `Equal`.
use beekeeper.Common.{
  Bool, false, not, ◌||◌, none, some, List, [], ◌∷◌, if◌then◌else◌, String, length,
}
use beekeeper.Common.Int.{ℤ, pos, ◌-ℤ◌, ltb_ℤ}
use beekeeper.Common.Outcome.{Outcome, ok, err, ◌>>=◌, ◌>>◌}
use beekeeper.Common.Dict.{Dict, lookup}
use beekeeper.Nodes.Cluster.{contains_name}

pub data ConnectivityError : Type 0 where
  cluster_failed full_connectivity : ConnectivityError

-- Overlays, or peers, of the nodes by their groups.
abbrev pub ByGroup : Type 0 → Type 0
ByGroup A = Dict (Dict A)

-- `peers[group][node]`, nil for a missing entry.
unfoldable pub peers_of : {A : Type 0} → ByGroup (List A) → String → String → List A
unfolding lookup
peers_of peers group node = elim (lookup group peers) [
  | none ↦ []
  | some m ↦ elim (lookup node m) [ none ↦ [] | some ps ↦ ps ]
]

module _ {A : Type 0} (equal : A → A → Bool) where
  unfoldable pub group_contains : Dict A → A → Bool
  group_contains [] a = false
  group_contains ((_, o) ∷ v) a = equal o a || group_contains v a

  unfoldable pub contains : ByGroup A → A → Bool
  unfolding group_contains
  contains [] a = false
  contains ((_, v) ∷ s) a = group_contains v a || contains s a

  unfoldable pub check_peers : ByGroup A → List A → Outcome ConnectivityError (Unit {0})
  unfolding contains
  check_peers overlays [] = ok tt
  check_peers overlays (p ∷ ps) =
      let rest = check_peers overlays ps in
      if not (contains overlays p) then err full_connectivity else rest

  unfoldable pub check_node : ByGroup A → ℤ → List A → Outcome ConnectivityError (Unit {0})
  unfolding check_peers
  check_node overlays expected all_peers =
      if ltb_ℤ (pos (length all_peers)) expected
      then err full_connectivity
      else check_peers overlays all_peers

  unfoldable pub check_group_nodes :
      ByGroup A → ByGroup (List A) → ℤ → String → Dict A → Outcome ConnectivityError (Unit {0})
  unfolding peers_of check_node
  check_group_nodes overlays peers expected group [] = ok tt
  check_group_nodes overlays peers expected group ((node, _) ∷ v) =
      check_node overlays expected (peers_of peers group node)
      >> check_group_nodes overlays peers expected group v

  -- The two loops, with the number of peers that a group's nodes should have.
  unfoldable pub check_groups :
      ByGroup A → ByGroup (List A) → (String → ℤ) → ByGroup A → Outcome ConnectivityError (Unit {0})
  unfolding check_group_nodes
  check_groups overlays peers expected [] = ok tt
  check_groups overlays peers expected ((group, v) ∷ groups) =
      check_group_nodes overlays peers (expected group) group v
      >> check_groups overlays peers expected groups

-- What the cluster answers, with and without the groups that are skipped.
pub record Answers (A : Type 0) : Type 0 where
  pub overlays : List String → Outcome ConnectivityError (ByGroup A)
  pub peers : List String → Outcome ConnectivityError (ByGroup (List A))
  pub full_node_names : List String
  pub node_names : List String

module _ {A : Type 0} (equal : A → A → Bool) (cluster : Answers A) where
  -- Boot nodes are connected to all others, full nodes to all full nodes.
  unfoldable pub expected_peer_count : List String → String → ℤ
  expected_peer_count boot_nodes group =
      if contains_name boot_nodes group
      then pos (length cluster.node_names) -ℤ pos 1
      else pos (length cluster.full_node_names) -ℤ pos 1

  unfoldable pub check_full_nodes : List String → List String → Outcome ConnectivityError (Unit {0})
  unfolding check_groups expected_peer_count
  check_full_nodes skip_nodes boot_nodes = do
    overlays ← cluster.overlays []
    full_nodes ← cluster.overlays skip_nodes
    peers ← cluster.peers skip_nodes
    check_groups equal overlays peers (expected_peer_count boot_nodes) full_nodes

  unfoldable pub check_light_nodes : List String → Outcome ConnectivityError (Unit {0})
  unfolding check_groups
  check_light_nodes skip_nodes = do
    overlays ← cluster.overlays []
    light_nodes ← cluster.overlays skip_nodes
    peers ← cluster.peers skip_nodes
    check_groups equal overlays peers (λ group. pos 1) light_nodes

  unfoldable pub run_connectivity :
      List String → List String → List String → Outcome ConnectivityError (Unit {0})
  unfolding check_full_nodes check_light_nodes
  run_connectivity light_node_names full_node_names boot_node_names =
      check_full_nodes light_node_names boot_node_names >> check_light_nodes full_node_names
