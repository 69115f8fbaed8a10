-- ===== src/Examples/FullNodes.antt =====
-- Runs of the search for a full node (pkg/orchestration/k8s/cluster.go, pkg/bee/client.go).
use beekeeper.Common.{
  ℕ, zero, suc, ◌≡◌, refl, ◌≢◌, inl, inr, Bool, true, false, Option, none, some, List, [], ◌∷◌,
  arith, String, str_eq, eq_iff, In, if◌then◌else◌, ◌∙◌, ap, sym,
}
use beekeeper.Common.Int.{pos}
use beekeeper.Common.Outcome.{ok, err}
use beekeeper.Checks.Topology.{Bin, Topology}
use beekeeper.Nodes.Cluster.{Node}
use beekeeper.Nodes.FullNode.{
  out_of_fuel, cannot_find, topology_failed, bin_key, PeerClient, closest_peer,
  closest_full_node_client,
}
use beekeeper.Nodes.Found.{
  IsClosest, closest_full_node_client-ne-out_of_fuel, closest_full_node_client-IsClosest,
}

-- An address is its text, and a client is the text of its overlay.
abbrev node : String → Bool → Bool → Node String String
node name full boot = record {
  name = name;
  config = record { full_node = full; bootnode_mode = boot };
  client = name;
}

abbrev cluster_nodes : List (Node String String)
cluster_nodes = node "boot" true true ∷ node "light" false false ∷ node "full" true false ∷ []

abbrev overlay_of : String → Option String
overlay_of client = some client

abbrev bin_of : List String → Bin String
bin_of peers = record {
  population = pos 3;
  connected = pos 3;
  disconnected_peers = [];
  connected_peers = peers;
}

abbrev topology : Topology String
topology = record {
  overlay = "self";
  depth = pos 1;
  bins =
      (bin_key 0, bin_of ("stranger" ∷ []))
      ∷ (bin_key 12, bin_of ("light" ∷ "boot" ∷ "full" ∷ []))
      ∷ [];
}

-- The first request for the topology fails.
abbrev client : PeerClient String
client = record {
  retry_count = 5;
  topologies = λ i. elim i [ zero ↦ none | suc _ ↦ some topology ];
  overlays = λ i. some "self";
}

abbrev far : String → String → ℕ
far a b = 3

-- The boot node and the light node of the bin are skipped.
full_node_run :
    closest_full_node_client str_eq far (λ a. a) "" overlay_of cluster_nodes client ≡ ok "full"
unfolding closest_full_node_client
full_node_run = refl

no_full_node_run :
    closest_full_node_client str_eq far
      (λ a. a)
      ""
      overlay_of
      (node "light" false false ∷ [])
      client
    ≡ err cannot_find
unfolding closest_full_node_client
no_full_node_run = refl

silent_run :
    closest_full_node_client str_eq far
      (λ a. a)
      ""
      overlay_of
      cluster_nodes
      (record client { topologies = λ i. none })
    ≡ err topology_failed
unfolding closest_full_node_client
silent_run = refl

-- The peer of the least proximity is returned: the farthest.
farthest_run :
    (closest_peer str_eq
      (λ a b. if str_eq b "light" then 9 else if str_eq b "boot" then 2 else 5)
      ""
      client
      (1, 0)
      12
      []).0
    ≡ ok "boot"
unfolding closest_peer
farthest_run = refl

same_text : (a b : String) → ◌≡◌ {A = String} a b → str_eq a b ≡ true
same_text a b e = (eq_iff a b).1 e

by_name :
    (n x : Node String String) (a : String)
    → str_eq x.client "" ≡ false
    → n ≡ x
    → overlay_of n.client ≡ some a
    → ◌≡◌ {A = String} a ""
    → ⊥
by_name n x a f i e z =
    let own : n.client ≡ a = cc in
    let t = same_text x.client "" (ap (λ (y : Node String String). y.client) (sym i) ∙ own ∙ z) in
    ground arith

no_zero_overlay :
    (n : Node String String) (a : String)
    → In n cluster_nodes
    → overlay_of n.client ≡ some a
    → ◌≢◌ {A = String} a ""
no_zero_overlay n a (inl i) e z = by_name n (node "boot" true true) a refl i e z
no_zero_overlay n a (inr (inl i)) e z = by_name n (node "light" false false) a refl i e z
no_zero_overlay n a (inr (inr (inl i))) e z = by_name n (node "full" true false) a refl i e z
no_zero_overlay n a (inr (inr (inr i))) e z = absurd i

closest_full_node_client-ne-out_of_fuel_example :
    closest_full_node_client str_eq far (λ a. a) "" overlay_of cluster_nodes client
    ≢ err out_of_fuel
closest_full_node_client-ne-out_of_fuel_example =
    closest_full_node_client-ne-out_of_fuel str_eq far (λ a. a) "" overlay_of cluster_nodes client
      same_text no_zero_overlay

closest_full_node_client-IsClosest_example :
    IsClosest str_eq far
      (λ a. a)
      ""
      overlay_of
      cluster_nodes
      client
      same_text
      no_zero_overlay
      "full"
closest_full_node_client-IsClosest_example =
    closest_full_node_client-IsClosest str_eq far (λ a. a) "" overlay_of cluster_nodes client
      same_text no_zero_overlay "full" full_node_run
