-- ===== src/Nodes/FullNode.antt =====
-- `Topology`, `Overlay` and `ClosestPeer` of pkg/bee/client.go, and `ClosestFullNodeClient` of
-- pkg/orchestration/k8s/cluster.go. What a node answers to each request is a parameter, and so are
-- the addresses of the package swarm with `Equal`, `String` and `Proximity`.
use beekeeper.Common.{
  ℕ, zero, suc, ◌+◌, ◌/◌, ◌%◌, Bool, true, false, not, ◌||◌, Option, none, some, List, [], ◌∷◌,
  ◌++◌, if◌then◌else◌, String, length, ltb, ◌==◌,
}
use beekeeper.Common.Int.{pos, ltb_ℤ}
use beekeeper.Common.Outcome.{Outcome, ok, err, panic, ◌>>=◌}
use beekeeper.Common.Dict.{Dict, lookup, insert}
use beekeeper.Checks.Topology.{Bin, Topology}
use beekeeper.Nodes.Cluster.{Node}

pub data FullNodeError : Type 0 where
  addresses_failed topology_failed overlay_failed cannot_find out_of_fuel : FullNodeError

-- The requests that a client repeats: at most `rounds` from number `i` on. The number of the next
-- request is returned, too.
unfoldable pub retry : {A : Type 0} → (ℕ → Option A) → ℕ → ℕ → Option A × ℕ
retry calls zero i = (none, i)
retry calls (suc rounds) i = elim (calls i) [
  | some a ↦ (some a, suc i)
  | none ↦ retry calls rounds (suc i)
]

-- `fmt.Sprintf("bin_%d", b)` of a uint8, as the bytes of the text.
unfoldable pub print_uint8 : ℕ → List ℕ
print_uint8 b =
    if ltb b 10
    then (b'0' + b) ∷ []
    else if ltb b 100
    then (b'0' + b / 10) ∷ (b'0' + b % 10) ∷ []
    else (b'0' + b / 100) ∷ (b'0' + b / 10 % 10) ∷ (b'0' + b % 10) ∷ []

unfoldable pub bin_key : ℕ → List ℕ
unfolding print_uint8
bin_key b = b'b' ∷ b'i' ∷ b'n' ∷ b'_' ∷ print_uint8 b

abbrev pub same_bytes : List ℕ → List ℕ → Bool
same_bytes [] [] = true
same_bytes [] (d ∷ t) = false
same_bytes (c ∷ s) [] = false
same_bytes (c ∷ s) (d ∷ t) = let rest = same_bytes s t in if c == d then rest else false

module _ {A : Type 0} where
  -- `Topology` copies the bins that hold a peer.
  unfoldable pub populated : List (List ℕ × Bin A) → List (List ℕ × Bin A)
  populated [] = []
  populated ((key, bin) ∷ bins) =
      let rest = populated bins in if ltb_ℤ (pos 0) bin.population then (key, bin) ∷ rest else rest

  -- The connected peers of a bin; a key that is missing gives an empty bin.
  unfoldable pub peers_of : List ℕ → List (List ℕ × Bin A) → List A
  peers_of key [] = []
  peers_of key ((k, bin) ∷ bins) =
      if same_bytes k key then bin.connected_peers else peers_of key bins

-- A client: its number of attempts, which `NewClient` makes positive, and the answers to its requests
-- for the topology and for the addresses, by their number.
pub record PeerClient (A : Type 0) : Type 0 where
  pub retry_count : ℕ
  pub topologies : ℕ → Option (Topology A)
  pub overlays : ℕ → Option A

module _ {A : Type 0} (equal : A → A → Bool) where
  -- `slices.ContainsFunc` with `Equal`.
  unfoldable pub is_listed : A → List A → Bool
  is_listed peer [] = false
  is_listed peer (addr ∷ skips) = equal addr peer || is_listed peer skips

-- The numbers of the next requests for the topology and for the addresses.
abbrev pub Asked : Type 0
Asked = ℕ × ℕ

module _ {A : Type 0} (equal : A → A → Bool) (proximity : A → A → ℕ) where
  -- The loop over the connected peers, with the closest one so far and its proximity.
  unfoldable pub least_proximity : A → List A → A → ℕ → List A → A
  unfolding is_listed
  least_proximity overlay skips closest min_prox [] = closest
  least_proximity overlay skips closest min_prox (peer ∷ peers) =
      let passed = least_proximity overlay skips closest min_prox peers in
      let prox = proximity overlay peer in
      let taken = least_proximity overlay skips peer prox peers in
      if is_listed equal peer skips then passed else if ltb prox min_prox then taken else passed

  -- The peer, and the numbers of the requests that follow.
  unfoldable pub closest_peer :
      A → PeerClient A → Asked → ℕ → List A → Outcome FullNodeError A × Asked
  unfolding retry bin_key populated peers_of least_proximity
  closest_peer zero_address s (i, j) bin_id skips =
      let (answer, i') = retry s.topologies s.retry_count i in
      let (own, j') = retry s.overlays s.retry_count j in
      elim answer [
        | none ↦ (err topology_failed, (i', j))
        | some t ↦ elim (peers_of (bin_key bin_id) (populated t.bins)) [
          | [] ↦ (ok zero_address, (i', j))
          | peer ∷ peers ↦ elim own [
            | none ↦ (err overlay_failed, (i', j'))
            | some overlay ↦
                (ok (least_proximity overlay skips zero_address 255 (peer ∷ peers)), (i', j'))
          ]
        ]
      ]

-- The nodes of the cluster by the text of their overlays.
unfoldable pub by_overlay :
    {A Client : Type 0} (text : A → String) (overlay_of : Client → Option A)
    → Dict (Node A Client)
    → List (Node A Client)
    → Outcome FullNodeError (Dict (Node A Client))
unfolding insert
by_overlay text overlay_of found [] = ok found
by_overlay text overlay_of found (n ∷ nodes) = elim (overlay_of n.client) [
  | none ↦ err addresses_failed
  | some a ↦ by_overlay text overlay_of (insert (text a) n found) nodes
]

module _ {A Client : Type 0} (equal : A → A → Bool) (proximity : A → A → ℕ) (text : A → String)
    (zero_address : A) (s : PeerClient A) (nodes : Dict (Node A Client)) where
  -- The loop over the bins below 32. After a peer that is no full node the same bin is asked again.
  unfoldable pub search_bins : ℕ → Asked → ℕ → List A → Outcome FullNodeError Client
  unfolding closest_peer lookup
  search_bins zero asked b skips = err out_of_fuel
  search_bins (suc fuel) asked b skips =
      let (found, asked') = closest_peer equal proximity zero_address s asked b skips in
      elim (ltb b 32) [
        | false ↦ err cannot_find
        | true ↦ elim found [
          | err e ↦ err e
          | panic ↦ panic
          | ok addr ↦ elim (lookup (text addr) nodes) [
            | none ↦ search_bins fuel asked' (suc b) skips
            | some node ↦ elim (not node.config.full_node || node.config.bootnode_mode) [
              | true ↦ search_bins fuel asked' b (skips ++ addr ∷ [])
              | false ↦ ok node.client
            ]
          ]
        ]
      ]

-- `nodes` are those of the cluster, and the fuel is one for each bin and for each node, and one more.
unfoldable pub closest_full_node_client :
    {A Client : Type 0} (equal : A → A → Bool) (proximity : A → A → ℕ) (text : A → String)
    (zero_address : A)
    → (Client → Option A)
    → List (Node A Client)
    → PeerClient A
    → Outcome FullNodeError Client
unfolding by_overlay search_bins
closest_full_node_client equal proximity text zero_address overlay_of nodes s =
    by_overlay text overlay_of [] nodes >>= λ addr_to_node.
    search_bins equal proximity text zero_address s addr_to_node (33 + length nodes) (0, 0) 0 []
