-- ===== src/Nodes/Search.antt =====
-- The search of `ClosestFullNodeClient` (pkg/orchestration/k8s/cluster.go) ends, and what it finds.
use beekeeper.Common.{
  ℕ, zero, suc, ◌+◌, ◌-◌, ◌≤◌, ◌<◌, ◌≡◌, refl, ◌≢◌, inl, inr, Bool, true, false, not, ◌||◌, Option,
  none, some, List, [], ◌∷◌, ◌++◌, arith, if◌then◌else◌, String, str_eq, eq_iff, length, ltb,
  ltb→lt, In, Bool-cases,
}
use beekeeper.Common.Outcome.{Outcome, ok, err, panic}
use beekeeper.Common.Dict.{Dict, lookup}
use beekeeper.Checks.Topology.{Topology}
use beekeeper.Nodes.Cluster.{Node}
use beekeeper.Nodes.FullNode.{
  FullNodeError, out_of_fuel, retry, bin_key, populated, peers_of, PeerClient, is_listed,
  closest_peer, Asked, search_bins,
}
use beekeeper.Nodes.Peer.{IsPeer, closest_peer-IsPeer}

module _ {A : Type 0} (text : A → String) where
  abbrev pub is_text : String → List A → Bool
  is_text key [] = false
  is_text key (a ∷ skips) = str_eq (text a) key || is_text key skips

  is_text-append :
      (key : String) (skips : List A) (a : A)
      → is_text key (skips ++ a ∷ []) ≡ (if is_text key skips then true else str_eq (text a) key)
  is_text-append key [] a = ground arith
  is_text-append key (b ∷ skips) a = ground (arith, is_text-append key skips a)

  unlisted-text :
      (equal : A → A → Bool)
      → ((a b : A) → text a ≡ text b → equal a b ≡ true)
      → (a : A) (skips : List A) → is_listed equal a skips ≡ false
      → is_text (text a) skips ≡ false
  unfolding is_listed
  unlisted-text equal same a [] h = refl
  unlisted-text equal same a (b ∷ skips) h = elim (Bool-cases (str_eq (text b) (text a))) [
    | inl e ↦ let q = same b a ((eq_iff (text b) (text a)).0 e) in absurd (ground arith)
    | inr e ↦ ground (arith, unlisted-text equal same a skips)
  ]

module _ {A Client : Type 0} (text : A → String) where
  -- How many nodes are not skipped.
  abbrev pub open_nodes : List A → Dict (Node A Client) → ℕ
  open_nodes skips [] = 0
  open_nodes skips ((key, n) ∷ nodes) =
      let rest = open_nodes skips nodes in if is_text text key skips then rest else suc rest

  open_nodes-append-le :
      (skips : List A) (a : A) (nodes : Dict (Node A Client))
      → open_nodes (skips ++ a ∷ []) nodes ≤ open_nodes skips nodes
  open_nodes-append-le skips a [] = omega arith
  open_nodes-append-le skips a ((key, n) ∷ nodes) =
      ground (arith, is_text-append text key skips a, open_nodes-append-le skips a nodes)

  -- Skipping a node that was not skipped leaves fewer.
  open_nodes-append-lt :
      (skips : List A) (a : A) (node : Node A Client) (nodes : Dict (Node A Client))
      → lookup (text a) nodes ≡ some node
      → is_text text (text a) skips ≡ false
      → open_nodes (skips ++ a ∷ []) nodes < open_nodes skips nodes
  unfolding lookup
  open_nodes-append-lt skips a node [] h t = cc
  open_nodes-append-lt skips a node ((key, n) ∷ nodes) h t = ground (
    arith,
    is_text-append text key skips a,
    eq_iff key (text a),
    eq_iff (text a) key,
    open_nodes-append-le skips a nodes,
    open_nodes-append-lt skips a node nodes,
  )

  pub open_nodes-length : (nodes : Dict (Node A Client)) → open_nodes [] nodes ≡ length nodes
  open_nodes-length [] = refl
  open_nodes-length ((key, n) ∷ nodes) = omega (arith, open_nodes-length nodes)

module _ {A Client : Type 0} (equal : A → A → Bool) (proximity : A → A → ℕ) (text : A → String)
    (zero_address : A) (s : PeerClient A) (nodes : Dict (Node A Client)) where
  closest_peer-ne-out_of_fuel :
      (asked : Asked) (b : ℕ) (skips : List A)
      → (closest_peer equal proximity zero_address s asked b skips).0 ≢ err out_of_fuel
  unfolding closest_peer
  closest_peer-ne-out_of_fuel (i, j) b skips h =
      by_answer (retry s.topologies s.retry_count i).0 refl
    where
      by_own :
          (t : Topology A) (peer : A) (peers : List A) (own : Option A)
          → (retry s.topologies s.retry_count i).0 ≡ some t
          → peers_of (bin_key b) (populated t.bins) ≡ peer ∷ peers
          → (retry s.overlays s.retry_count j).0 ≡ own
          → ⊥
      by_own t peer peers none a p o = let h' = rw (closest_peer, a, p, o) at h in cc
      by_own t peer peers (some overlay) a p o = let h' = rw (closest_peer, a, p, o) at h in cc

      by_peers :
          (t : Topology A)
          → (retry s.topologies s.retry_count i).0 ≡ some t
          → (peers : List A) → peers_of (bin_key b) (populated t.bins) ≡ peers
          → ⊥
      by_peers t a [] p = let h' = rw (closest_peer, a, p) at h in cc
      by_peers t a (peer ∷ peers) p =
          by_own t peer peers (retry s.overlays s.retry_count j).0 a p refl

      by_answer : (o : Option (Topology A)) → (retry s.topologies s.retry_count i).0 ≡ o → ⊥
      by_answer none a = let h' = rw (closest_peer, a) at h in cc
      by_answer (some t) a = by_peers t a (peers_of (bin_key b) (populated t.bins)) refl

  module _ (no_zero : lookup (text zero_address) nodes ≡ none)
      (same_text : (a b : A) → text a ≡ text b → equal a b ≡ true) where
    -- A node that was found by the peer's address was not skipped before.
    found_open :
        (asked : Asked) (b : ℕ) (skips : List A) (addr : A) (node : Node A Client)
        → (closest_peer equal proximity zero_address s asked b skips).0 ≡ ok addr
        → lookup (text addr) nodes ≡ some node
        → IsPeer equal proximity zero_address s b skips addr
    found_open asked b skips addr node h l =
        elim (closest_peer-IsPeer equal proximity zero_address s asked b skips addr h) [
          | inl z ↦ let l' = rw z at l in absurd (ground (arith, no_zero, l'))
          | inr p ↦ p
        ]

    pub search_bins-ne-out_of_fuel :
        (fuel : ℕ) (asked : Asked) (b : ℕ) (skips : List A)
        → (32 - b) + open_nodes text skips nodes < fuel
        → search_bins equal proximity text zero_address s nodes fuel asked b skips ≢ err out_of_fuel
    unfolding search_bins
    search_bins-ne-out_of_fuel zero asked b skips m h = absurd (omega arith)
    search_bins-ne-out_of_fuel (suc fuel) asked b skips m h = elim (Bool-cases (ltb b 32)) [
      | inl low ↦
          by_found low (closest_peer equal proximity zero_address s asked b skips).0 refl (λ q k m'.
            search_bins-ne-out_of_fuel fuel
              (closest_peer equal proximity zero_address s asked b skips).1 q k m')
      | inr high ↦ let h' = rw (search_bins, high) at h in cc
    ]
      where
        by_found :
            ltb b 32 ≡ true
            → (f : Outcome FullNodeError A)
            → (closest_peer equal proximity zero_address s asked b skips).0 ≡ f
            → ((q : ℕ) (k : List A)
                → (32 - q) + open_nodes text k nodes < fuel
                → search_bins equal proximity text zero_address s nodes fuel
                    (closest_peer equal proximity zero_address s asked b skips).1
                    q
                    k
                  ≢ err out_of_fuel)
            → ⊥
        by_found low panic f rest = let h' = rw (search_bins, low, f) at h in cc
        by_found low (err e) f rest =
            let h' = rw (search_bins, low, f) at h in closest_peer-ne-out_of_fuel asked b skips (cc)
        by_found low (ok addr) f rest = by_node (lookup (text addr) nodes) refl
          where
            by_node : (o : Option (Node A Client)) → lookup (text addr) nodes ≡ o → ⊥
            by_node none l =
                let h' = rw (search_bins, low, f, l) at h in rest (suc b) skips (ground arith) h'
            by_node (some node) l =
                elim (Bool-cases (not node.config.full_node || node.config.bootnode_mode)) [
                  | inl skip ↦
                      let h' = rw (search_bins, low, f, l, skip) at h in
                      let (k, t, e, i, listed) = found_open asked b skips addr node f l in
                      let fewer =
                        open_nodes-append-lt text skips addr node nodes l
                          (unlisted-text text equal same_text addr skips listed) in
                      rest b (skips ++ addr ∷ []) (omega arith) h'
                  | inr good ↦ let h' = rw (search_bins, low, f, l, good) at h in cc
                ]

    -- What the search returns.
    abbrev pub IsFullNode : Client → Type 0
    IsFullNode client =
        (addr : A) × (node : Node A Client) × (b : ℕ) × (k : ℕ) × (t : Topology A) × (lookup
            (text addr) nodes
          ≡ some node)
        × (node.client ≡ client)
        × (node.config.full_node ≡ true)
        × (node.config.bootnode_mode ≡ false)
        × (b < 32)
        × (s.topologies k ≡ some t)
        × In addr (peers_of (bin_key b) (populated t.bins))

    pub search_bins-IsFullNode :
        (fuel : ℕ) (asked : Asked) (b : ℕ) (skips : List A) (client : Client)
        → search_bins equal proximity text zero_address s nodes fuel asked b skips ≡ ok client
        → IsFullNode client
    unfolding search_bins
    search_bins-IsFullNode zero asked b skips client h = cc
    search_bins-IsFullNode (suc fuel) asked b skips client h = elim (Bool-cases (ltb b 32)) [
      | inl low ↦
          by_found low (closest_peer equal proximity zero_address s asked b skips).0 refl (λ q k g.
            search_bins-IsFullNode fuel
              (closest_peer equal proximity zero_address s asked b skips).1 q k client g)
      | inr high ↦ let h' = rw (search_bins, high) at h in cc
    ]
      where
        by_found :
            ltb b 32 ≡ true
            → (f : Outcome FullNodeError A)
            → (closest_peer equal proximity zero_address s asked b skips).0 ≡ f
            → ((q : ℕ) (k : List A)
                → search_bins equal proximity text zero_address s nodes fuel
                    (closest_peer equal proximity zero_address s asked b skips).1
                    q
                    k
                  ≡ ok client
                → IsFullNode client)
            → IsFullNode client
        by_found low panic f rest = let h' = rw (search_bins, low, f) at h in cc
        by_found low (err e) f rest = let h' = rw (search_bins, low, f) at h in cc
        by_found low (ok addr) f rest = by_node (lookup (text addr) nodes) refl
          where
            by_node :
                (o : Option (Node A Client)) → lookup (text addr) nodes ≡ o → IsFullNode client
            by_node none l = rest (suc b) skips (rw (search_bins, low, f, l) at h)
            by_node (some node) l =
                elim (Bool-cases (not node.config.full_node || node.config.bootnode_mode)) [
                  | inl skip ↦ rest b (skips ++ addr ∷ []) (rw (search_bins, low, f, l, skip) at h)
                  | inr good ↦
                      let h' = rw (search_bins, low, f, l, good) at h in
                      let (k, t, e, i, listed) = found_open asked b skips addr node f l in
                      (
                        addr,
                        node,
                        b,
                        k,
                        t,
                        l,
                        cc,
                        ground arith,
                        ground arith,
                        ltb→lt b 32 low,
                        e,
                        i,
                      )
                ]
