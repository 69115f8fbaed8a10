-- ===== src/Nodes/Found.antt =====
-- `ClosestFullNodeClient` of pkg/orchestration/k8s/cluster.go as a whole.
use beekeeper.Common.{
  ℕ, suc, ◌+◌, ◌≤◌, ◌<◌, ◌≡◌, refl, ◌≢◌, ◌⊎◌, inl, inr, Bool, true, false, Option, none, some, List,
  [], ◌∷◌, arith, String, str_eq, eq_iff, length, In, Bool-cases, ◌∙◌, sym,
}
use beekeeper.Common.Outcome.{Outcome, ok, err, panic}
use beekeeper.Common.Dict.{Dict, lookup, insert, lookup-insert}
use beekeeper.Checks.Topology.{Topology}
use beekeeper.Nodes.Cluster.{Node}
use beekeeper.Nodes.FullNode.{
  FullNodeError, out_of_fuel, bin_key, populated, peers_of, PeerClient, by_overlay,
  closest_full_node_client,
}
use beekeeper.Nodes.Search.{open_nodes-length, search_bins-ne-out_of_fuel, search_bins-IsFullNode}

length-insert-le :
    {V : Type 0} (k : String) (v : V) (m : Dict V) → length (insert k v m) ≤ suc (length m)
unfolding insert
length-insert-le k v [] = omega arith
length-insert-le k v ((j, w) ∷ m) = ground (arith, length-insert-le k v m)

module _ {A Client : Type 0} (text : A → String) (overlay_of : Client → Option A) where
  abbrev pub overlays :
      Dict (Node A Client) → List (Node A Client) → Outcome FullNodeError (Dict (Node A Client))
  overlays found nodes = by_overlay text overlay_of found nodes

  -- The node is in the list, and its overlay has the text.
  abbrev pub IsAt : String → Node A Client → List (Node A Client) → Type 0
  IsAt key n nodes = In n nodes × ((a : A) × (overlay_of n.client ≡ some a) × (text a ≡ key))

  length-by_overlay-le :
      (nodes : List (Node A Client)) (found d : Dict (Node A Client))
      → overlays found nodes ≡ ok d
      → length d ≤ length found + length nodes
  unfolding by_overlay
  length-by_overlay-le [] found d h = let same : found ≡ d = cc in rw (← same) (omega arith)
  length-by_overlay-le (n ∷ nodes) found d h =
      step (overlay_of n.client) refl (λ f g. length-by_overlay-le nodes f d g)
    where
      step :
          (o : Option A)
          → overlay_of n.client ≡ o
          → ((f : Dict (Node A Client))
              → overlays f nodes ≡ ok d
              → length d ≤ length f + length nodes)
          → length d ≤ length found + suc (length nodes)
      step none e rest = let h' = rw (by_overlay, e) at h in cc
      step (some a) e rest =
          let r = rest (insert (text a) n found) (rw (by_overlay, e) at h) in
          omega (arith, length-insert-le (text a) n found)

  by_overlay-IsAt :
      (nodes : List (Node A Client)) (found d : Dict (Node A Client)) (key : String)
      (m : Node A Client)
      → overlays found nodes ≡ ok d
      → lookup key d ≡ some m
      → (lookup key found ≡ some m) ⊎ IsAt key m nodes
  unfolding by_overlay
  by_overlay-IsAt [] found d key m h l = let same : found ≡ d = cc in inl (rw same l)
  by_overlay-IsAt (n ∷ nodes) found d key m h l =
      step (overlay_of n.client) refl (λ f g. by_overlay-IsAt nodes f d key m g l)
    where
      step :
          (o : Option A)
          → overlay_of n.client ≡ o
          → ((f : Dict (Node A Client))
              → overlays f nodes ≡ ok d
              → (lookup key f ≡ some m) ⊎ IsAt key m nodes)
          → (lookup key found ≡ some m) ⊎ IsAt key m (n ∷ nodes)
      step none e rest = let h' = rw (by_overlay, e) at h in cc
      step (some a) e rest = elim (rest (insert (text a) n found) (rw (by_overlay, e) at h)) [
        | inr (i, at_key) ↦ inr (inr i, at_key)
        | inl q ↦
            let r = sym (lookup-insert (text a) key n found) ∙ q in
            elim (Bool-cases (str_eq (text a) key)) [
              | inl t ↦
                  let r' = rw t at r in
                  let same : n ≡ m = cc in
                  inr (inl (sym same), (a, rw (← same) e, (eq_iff (text a) key).0 t))
              | inr t ↦ inl (rw t at r)
            ]
      ]

module _ {A Client : Type 0} (equal : A → A → Bool) (proximity : A → A → ℕ) (text : A → String)
    (zero_address : A) (overlay_of : Client → Option A) (nodes : List (Node A Client))
    (s : PeerClient A) (same_text : (a b : A) → text a ≡ text b → equal a b ≡ true)
    (no_zero : (n : Node A Client) (a : A)
      → In n nodes
      → overlay_of n.client ≡ some a
      → text a ≢ text zero_address) where
  no_zero_key :
      (d : Dict (Node A Client))
      → by_overlay text overlay_of [] nodes ≡ ok d
      → lookup (text zero_address) d ≡ none
  unfolding lookup
  no_zero_key d h = step (lookup (text zero_address) d) refl
    where
      step :
          (o : Option (Node A Client))
          → lookup (text zero_address) d ≡ o
          → lookup (text zero_address) d ≡ none
      step none e = e
      step (some m) e =
          elim (by_overlay-IsAt text overlay_of nodes [] d (text zero_address) m h e) [
            | inl q ↦ cc
            | inr (i, (a, f, t)) ↦ absurd (no_zero m a i f t)
          ]

  by_overlay-ne-out_of_fuel :
      (ns : List (Node A Client)) (found : Dict (Node A Client))
      → by_overlay text overlay_of found ns ≢ err out_of_fuel
  unfolding by_overlay
  by_overlay-ne-out_of_fuel [] found h = cc
  by_overlay-ne-out_of_fuel (n ∷ ns) found h =
      step (overlay_of n.client) refl (λ f g. by_overlay-ne-out_of_fuel ns f g)
    where
      step :
          (o : Option A)
          → overlay_of n.client ≡ o
          → ((f : Dict (Node A Client)) → by_overlay text overlay_of f ns ≢ err out_of_fuel)
          → ⊥
      step none e rest = let h' = rw (by_overlay, e) at h in cc
      step (some a) e rest = rest (insert (text a) n found) (rw (by_overlay, e) at h)

  -- When Equal takes addresses of one text for equal, and no node of the cluster has the zero
  -- address, the loop of ClosestFullNodeClient ends whatever the node answers, from request to
  -- request: the fuel of one round for each bin and node, and one more, never runs out.
  pub closest_full_node_client-ne-out_of_fuel :
      closest_full_node_client equal proximity text zero_address overlay_of nodes s
      ≢ err out_of_fuel
  unfolding closest_full_node_client
  closest_full_node_client-ne-out_of_fuel h = step (by_overlay text overlay_of [] nodes) refl
    where
      step :
          (r : Outcome FullNodeError (Dict (Node A Client)))
          → by_overlay text overlay_of [] nodes ≡ r
          → ⊥
      step panic e = let h' = rw (closest_full_node_client, e) at h in cc
      step (err x) e =
          let h' = rw (closest_full_node_client, e) at h in
          let same : x ≡ out_of_fuel = cc in by_overlay-ne-out_of_fuel nodes [] (rw same at e)
      step (ok d) e =
          let h' = rw (closest_full_node_client, e) at h in
          search_bins-ne-out_of_fuel equal proximity text zero_address s d (no_zero_key d e)
            same_text (33 + length nodes) (0, 0) 0 []
            (omega
              (arith, open_nodes-length text d, length-by_overlay-le text overlay_of nodes [] d e))
            h'

  -- The client is that of a full node of the cluster.
  abbrev pub IsClosest : Client → Type 0
  IsClosest client =
      (node : Node A Client) × In node nodes
      × (node.client ≡ client)
      × (node.config.full_node ≡ true)
      × (node.config.bootnode_mode ≡ false)
      × ((own addr : A) × (b : ℕ) × (k : ℕ) × (t : Topology A) × (overlay_of client ≡ some own)
          × (text own ≡ text addr)
          × (b < 32)
          × (s.topologies k ≡ some t)
          × In addr (peers_of (bin_key b) (populated t.bins)))

  -- Under the same conditions, a client that ClosestFullNodeClient returns is that of a full node of
  -- the cluster that is no boot node, whose overlay is, as a text, a connected peer of one of the 32
  -- bins in some answer of the node.
  pub closest_full_node_client-IsClosest :
      (client : Client)
      → closest_full_node_client equal proximity text zero_address overlay_of nodes s ≡ ok client
      → IsClosest client
  unfolding closest_full_node_client lookup
  closest_full_node_client-IsClosest client h = step (by_overlay text overlay_of [] nodes) refl
    where
      step :
          (r : Outcome FullNodeError (Dict (Node A Client)))
          → by_overlay text overlay_of [] nodes ≡ r
          → IsClosest client
      step panic e = let h' = rw (closest_full_node_client, e) at h in cc
      step (err x) e = let h' = rw (closest_full_node_client, e) at h in cc
      step (ok d) e =
          let h' = rw (closest_full_node_client, e) at h in
          let (addr, node, b, k, t, l, c, full, boot, low, answer, i) =
            search_bins-IsFullNode equal proximity text zero_address s d (no_zero_key d e) same_text
              (33 + length nodes) (0, 0) 0 [] client h' in
          elim (by_overlay-IsAt text overlay_of nodes [] d (text addr) node e l) [
            | inl q ↦ cc
            | inr (j, (own, f, at)) ↦
                (node, j, c, full, boot, (own, addr, b, k, t, rw (← c) f, at, low, answer, i))
          ]
