-- ===== src/Checks/Depth.antt =====
-- What the dynamic kademlia check of pkg/check/kademlia/kademlia.go establishes when it passes.
use beekeeper.Common.{
  ℕ, ◌≡◌, refl, ◌≤◌, ◌%◌, ◌↔◌, inl, inr, Bool, true, false, not, ◌||◌, List, [], ◌∷◌, arith, String,
  All, In, leb, Bool-cases,
}
use beekeeper.Common.Int.{pos, eqb_ℤ, to_word}
use beekeeper.Common.Outcome.{Outcome, ok, err, panic, ◌>>=◌, >>=-eq-ok}
use beekeeper.Common.Dict.{Dict}
use beekeeper.Checks.Topology.{
  KademliaError, Topology, Topologies, is_empty, all_overlays, peers_within, nodes_in_depth, occurs,
  verify_nodes, missing, group_culprits, culprits, check_kademlia_d,
}
use beekeeper.Checks.Healthy.{All-same_iff}
use beekeeper.Checks.Listed.{
  HasNumbers, peers_within-total, peers_within-HasNumbers, IsKnown, IsListed,
  peers_within-IsListed_iff,
}

module _ {A : Type 0} (equal : A → A → Bool) (proximity : A → A → ℕ) where
  occurs-true :
      (e : A) (nodes : List A)
      → occurs equal proximity e nodes ≡ true
      → (n : A) × In n nodes × (equal e n ≡ true)
  unfolding occurs
  occurs-true e [] h = ground arith
  occurs-true e (n ∷ nodes) h = elim (Bool-cases (equal e n)) [
    | inl q ↦ (n, inl refl, q)
    | inr q ↦ let (m, i, r) = occurs-true e nodes (ground arith) in (m, inr i, r)
  ]

  occurs-In :
      (e n : A) (nodes : List A)
      → In n nodes
      → equal e n ≡ true
      → occurs equal proximity e nodes ≡ true
  unfolding occurs
  occurs-In e n [] i h = absurd i
  occurs-In e n (m ∷ nodes) (inl q) h = let h' = rw q at h in ground arith
  occurs-In e n (m ∷ nodes) (inr i) h = ground (arith, occurs-In e n nodes i h)

  verify_nodes-empty_iff :
      (exp nodes : List A)
      → (is_empty (verify_nodes equal proximity exp nodes) ≡ true)
        ↔ All (λ e. IsKnown equal e nodes) exp
  unfolding verify_nodes
  verify_nodes-empty_iff [] nodes = ((λ h. tt), (λ h. refl))
  verify_nodes-empty_iff (e ∷ exp) nodes =
      let (f, g) = verify_nodes-empty_iff exp nodes in
      (
        (λ h. (occurs-true e nodes (ground arith), f (ground arith))),
        (λ ((n, i, q), h). let o = occurs-In e n nodes i q in let r = g h in ground arith),
      )

  nodes_in_depth-All_iff :
      (P : A → Type 0) (d : ℕ) (pivot : A) (addrs : List A)
      → All P (nodes_in_depth equal proximity d pivot addrs)
        ↔ All (λ a. equal a pivot ≡ false → d ≤ proximity pivot a → P a) addrs
  unfolding nodes_in_depth
  nodes_in_depth-All_iff P d pivot [] = ((λ h. h), (λ h. h))
  nodes_in_depth-All_iff P d pivot (a ∷ addrs) =
      let (f, g) = nodes_in_depth-All_iff P d pivot addrs in
      elim (Bool-cases (equal a pivot)) [
        | inl e ↦ rw (e, nodes_in_depth) ((λ h. ((λ q. absurd cc), f h)), (λ h. g h.1))
        | inr e ↦ elim (Bool-cases (leb d (proximity pivot a))) [
          | inl l ↦
              rw (e, l, nodes_in_depth)
                ((λ h. ((λ _ _. h.0), f h.1)), (λ h. (h.0 refl (ground arith), g h.1)))
          | inr l ↦
              rw (e, l, nodes_in_depth) ((λ h. ((λ _ k. absurd (ground arith)), f h)), (λ h. g h.1))
        ]
      ]

  module _ (overlays : List A) where
    -- A node is connected as it should be: its depth is not 0, its bins have numbers to read, and
    -- each other overlay whose proximity is its depth, as a uint8, or more is listed in its bins at
    -- the depth or deeper.
    abbrev pub IsConnected : String × Topology A → Type 0
    IsConnected (_, t) =
        (eqb_ℤ t.depth (pos 0) ≡ false)
        × HasNumbers t.bins
        × All
            (λ a.
              equal a t.overlay ≡ false
              → to_word t.depth % 256 ≤ proximity t.overlay a
              → IsListed equal t.depth a t.bins)
            overlays

    expected : Topology A → List A
    expected t = nodes_in_depth equal proximity (to_word t.depth % 256) t.overlay overlays

    -- The nodes found are those that the bins list.
    needed :
        (t : Topology A) (nodes : List A)
        → peers_within t.depth t.bins ≡ ok nodes
        → (a : A)
        → (equal a t.overlay ≡ false
            → to_word t.depth % 256 ≤ proximity t.overlay a
            → IsKnown equal a nodes)
          ↔ (equal a t.overlay ≡ false
              → to_word t.depth % 256 ≤ proximity t.overlay a
              → IsListed equal t.depth a t.bins)
    needed t nodes p a =
        let (f, g) = peers_within-IsListed_iff equal t.depth t.bins nodes a p in
        ((λ h u v. f (h u v)), (λ h u v. g (h u v)))

    missing-empty_iff :
        (n : String) (t : Topology A)
        → ((c : List A) × (missing equal proximity overlays t ≡ ok c) × (is_empty c ≡ true))
          ↔ IsConnected (n, t)
    unfolding missing expected
    missing-empty_iff n t = (
      (λ (c, e, z).
          let d : eqb_ℤ t.depth (pos 0) ≡ false = ground arith in
          let (nodes, p, q) = >>=-eq-ok (peers_within t.depth t.bins) _ (rw (d, missing) at e) in
          let v : is_empty (verify_nodes equal proximity (expected t) nodes) ≡ true =
            ground arith in
          (
            d,
            peers_within-HasNumbers t.depth t.bins nodes p,
            (All-same_iff overlays (needed t nodes p)).0 (
                (nodes_in_depth-All_iff _ _ t.overlay overlays).0
                  ((verify_nodes-empty_iff (expected t) nodes).0 v)),
          )),
      (λ (d, numbers, h).
          let (nodes, p) = peers_within-total t.depth t.bins numbers in
          (
            verify_nodes equal proximity (expected t) nodes,
            rw (d, missing, p) refl,
            (verify_nodes-empty_iff (expected t) nodes).1 (
                (nodes_in_depth-All_iff (λ a. IsKnown equal a nodes) (to_word t.depth % 256)
                    t.overlay overlays).1
                  ((All-same_iff overlays (needed t nodes p)).1 h)),
          )),
    )

    -- One node of a loop that notes whether a node has culprits, and the nodes after it.
    cons-false_iff :
        {P Q : Type 0} (m : Outcome KademliaError (List A)) (k : Outcome KademliaError Bool)
        → ((c : List A) × (m ≡ ok c) × (is_empty c ≡ true)) ↔ P
        → (k ≡ ok false) ↔ Q
        → ((m >>= λ c. k >>= λ rest. ok (not (is_empty c) || rest)) ≡ ok false) ↔ (P × Q)
    cons-false_iff (ok c) (ok b) (f, g) (f', g') = (
      (λ h. (f (c, refl, ground arith), f' (ground arith))),
      (λ h. let (c', e, z) = g h.0 in let q = g' h.1 in ground arith),
    )
    cons-false_iff (ok c) (err e) (f, g) (f', g') =
        ((λ h. ground arith), (λ h. let q = g' h.1 in ground arith))
    cons-false_iff (ok c) panic (f, g) (f', g') =
        ((λ h. ground arith), (λ h. let q = g' h.1 in ground arith))
    cons-false_iff (err e) k (f, g) (f', g') =
        ((λ h. ground arith), (λ h. let q = g h.0 in ground arith))
    cons-false_iff panic k (f, g) (f', g') =
        ((λ h. ground arith), (λ h. let q = g h.0 in ground arith))

    group_culprits-false_iff :
        (group : Dict (Topology A))
        → (group_culprits equal proximity overlays group ≡ ok false) ↔ All IsConnected group
    unfolding group_culprits
    group_culprits-false_iff [] = ((λ h. tt), (λ h. refl))
    group_culprits-false_iff ((n, t) ∷ group) =
        cons-false_iff _ _ (missing-empty_iff n t) (group_culprits-false_iff group)

    or-false_iff :
        {P Q : Type 0} (m k : Outcome KademliaError Bool)
        → (m ≡ ok false) ↔ P
        → (k ≡ ok false) ↔ Q
        → ((m >>= λ c. k >>= λ rest. ok (c || rest)) ≡ ok false) ↔ (P × Q)
    or-false_iff (ok c) (ok b) (f, g) (f', g') = (
      (λ h. (f (ground arith), f' (ground arith))),
      (λ h. let p = g h.0 in let q = g' h.1 in ground arith),
    )
    or-false_iff (ok c) (err e) (f, g) (f', g') =
        ((λ h. ground arith), (λ h. let q = g' h.1 in ground arith))
    or-false_iff (ok c) panic (f, g) (f', g') =
        ((λ h. ground arith), (λ h. let q = g' h.1 in ground arith))
    or-false_iff (err e) k (f, g) (f', g') =
        ((λ h. ground arith), (λ h. let q = g h.0 in ground arith))
    or-false_iff panic k (f, g) (f', g') =
        ((λ h. ground arith), (λ h. let q = g h.0 in ground arith))

    culprits-false_iff :
        (topologies : Topologies A)
        → (culprits equal proximity overlays topologies ≡ ok false)
          ↔ All (λ g. All IsConnected g.1) topologies
    unfolding culprits
    culprits-false_iff [] = ((λ h. tt), (λ h. refl))
    culprits-false_iff ((_, group) ∷ topologies) =
        or-false_iff _ _ (group_culprits-false_iff group) (culprits-false_iff topologies)

  -- The dynamic check passes exactly when every node of every group has a depth other than 0, has
  -- bins with readable keys, and has among the connected peers of its bins at the depth or deeper
  -- each other overlay of the cluster whose proximity is the depth, as a uint8, or more.
  pub check_kademlia_d-ok_iff :
      (topologies : Topologies A)
      → (check_kademlia_d equal proximity topologies ≡ ok false)
        ↔ All (λ g. All (IsConnected (all_overlays topologies)) g.1) topologies
  unfolding check_kademlia_d
  check_kademlia_d-ok_iff topologies = culprits-false_iff (all_overlays topologies) topologies
