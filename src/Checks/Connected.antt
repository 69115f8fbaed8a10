-- ===== src/Checks/Connected.antt =====
-- What the full connectivity check of pkg/check/fullconnectivity/fullconnectivity.go establishes.
use beekeeper.Common.{
  ◌≡◌, refl, ◌↔◌, inl, inr, Bool, true, false, List, [], ◌∷◌, arith, String, All, In, length,
  str_eq, eq_iff, Bool-cases, sym, ap,
}
use mathlib.Core.Path.{subst}
use beekeeper.Common.Int.{ℤ, pos, ◌≤ℤ◌, ◌-ℤ◌}
use beekeeper.Common.Outcome.{ok}
use beekeeper.Common.Dict.{Dict}
use beekeeper.Nodes.Cluster.{contains_name}
use beekeeper.Checks.Healthy.{cons-ok_iff, All-same_iff}
use beekeeper.Checks.Connectivity.{
  ByGroup, peers_of, group_contains, contains, check_peers, check_node, check_group_nodes,
  check_groups, Answers, expected_peer_count, check_full_nodes, check_light_nodes, run_connectivity,
}

contains_name-In_iff :
    (names : List String) (name : String) → (contains_name names name ≡ true) ↔ In name names
contains_name-In_iff [] name = ((λ h. cc), (λ i. absurd i))
contains_name-In_iff (n ∷ names) name =
    let (f, g) = contains_name-In_iff names name in
    let (s, t) = eq_iff n name in
    elim (Bool-cases (str_eq n name)) [
      | inl e ↦ ((λ h. inl (sym (s e))), (λ i. rw e refl))
      | inr e ↦ (
        (λ h. inr (f (ground arith))),
        (λ i. elim i [ inl q ↦ let r = t (sym q) in cc | inr j ↦ let r = g j in ground arith ]),
      )
    ]

module _ {A : Type 0} (equal : A → A → Bool) (overlays : ByGroup A) where
  -- The address is the overlay of a node of a group.
  abbrev pub IsOverlay : A → Type 0
  IsOverlay a =
      (g : String × Dict A) × (n : String × A) × In g overlays × In n g.1 × (equal n.1 a ≡ true)

  -- Enough peers, and each of them an overlay of the cluster.
  abbrev pub IsConnectedTo : ℤ → List A → Type 0
  IsConnectedTo expected all_peers = (expected ≤ℤ pos (length all_peers)) × All IsOverlay all_peers

  group_contains_iff :
      (v : Dict A) (a : A)
      → (group_contains equal v a ≡ true) ↔ ((n : String × A) × In n v × (equal n.1 a ≡ true))
  unfolding group_contains
  group_contains_iff [] a = ((λ h. cc), (λ (n, i, e). absurd i))
  group_contains_iff ((k, o) ∷ v) a =
      let (f, g) = group_contains_iff v a in
      elim (Bool-cases (equal o a)) [
        | inl e ↦ ((λ h. ((k, o), inl refl, e)), (λ h. rw (e, group_contains) refl))
        | inr e ↦
            rw (e, group_contains)
              (
                (λ h. let (n, i, q) = f h in (n, inr i, q)),
                (λ (n, i, q). elim i [
                  | inl r ↦ absurd (differs (ap (λ x. equal x.1 a) r) q e)
                  | inr j ↦ g (n, j, q)
                ]),
              )
      ]
    where
      differs : {b c : Bool} → b ≡ c → b ≡ true → c ≡ false → ⊥
      differs r q e = cc

  contains_iff :
      (s : ByGroup A) (a : A)
      → (contains equal s a ≡ true)
        ↔ ((g : String × Dict A) × (n : String × A) × In g s × In n g.1 × (equal n.1 a ≡ true))
  unfolding contains
  contains_iff [] a = ((λ h. cc), (λ (g, n, i, j, e). absurd i))
  contains_iff ((k, v) ∷ s) a =
      let (f, g) = contains_iff s a in
      let (f', g') = group_contains_iff v a in
      elim (Bool-cases (group_contains equal v a)) [
        | inl e ↦ (
          (λ h. let (n, j, q) = f' e in ((k, v), n, inl refl, j, q)),
          (λ h. rw (e, contains) refl),
        )
        | inr e ↦
            rw (e, contains)
              (
                (λ h. let (x, n, i, j, q) = f h in (x, n, inr i, j, q)),
                (λ (x, n, i, j, q). elim i [
                  | inl r ↦ let t = g' (n, subst (λ y. In n y.1) r j, q) in cc
                  | inr l ↦ g (x, n, l, j, q)
                ]),
              )
      ]

  check_peers-ok_iff : (ps : List A) → (check_peers equal overlays ps ≡ ok tt) ↔ All IsOverlay ps
  unfolding check_peers
  check_peers-ok_iff [] = ((λ h. tt), (λ h. refl))
  check_peers-ok_iff (p ∷ ps) =
      let (f, g) = check_peers-ok_iff ps in
      let (f', g') = contains_iff overlays p in
      (
        (λ h. (f' (ground arith), f (ground arith))),
        (λ (c, h). let q = g h in let r = g' c in ground arith),
      )

  check_node-ok_iff :
      (expected : ℤ) (ps : List A)
      → (check_node equal overlays expected ps ≡ ok tt) ↔ IsConnectedTo expected ps
  unfolding check_node
  check_node-ok_iff expected ps =
      let (f, g) = check_peers-ok_iff ps in
      ((λ h. (ground arith, f (ground arith))), (λ (c, h). let q = g h in ground arith))

  check_group_nodes-ok_iff :
      (peers : ByGroup (List A)) (expected : ℤ) (group : String) (v : Dict A)
      → (check_group_nodes equal overlays peers expected group v ≡ ok tt)
        ↔ All (λ n. IsConnectedTo expected (peers_of peers group n.0)) v
  unfolding check_group_nodes
  check_group_nodes-ok_iff peers expected group [] = ((λ h. tt), (λ h. refl))
  check_group_nodes-ok_iff peers expected group ((node, o) ∷ v) =
      cons-ok_iff _ _ (check_node-ok_iff expected (peers_of peers group node))
        (check_group_nodes-ok_iff peers expected group v)

  pub check_groups-ok_iff :
      (peers : ByGroup (List A)) (expected : String → ℤ) (groups : ByGroup A)
      → (check_groups equal overlays peers expected groups ≡ ok tt)
        ↔ All (λ g. All (λ n. IsConnectedTo (expected g.0) (peers_of peers g.0 n.0)) g.1) groups
  unfolding check_groups
  check_groups-ok_iff peers expected [] = ((λ h. tt), (λ h. refl))
  check_groups-ok_iff peers expected ((group, v) ∷ groups) =
      cons-ok_iff _ _ (check_group_nodes-ok_iff peers (expected group) group v)
        (check_groups-ok_iff peers expected groups)

module _ {A : Type 0} (equal : A → A → Bool) (cluster : Answers A) where
  -- The nodes of a group have as many peers as there are other nodes if the group is one of the
  -- boot nodes', and else as many as there are other full nodes.
  abbrev pub IsFullyConnected :
      List String → ByGroup A → ByGroup (List A) → String × Dict A → Type 0
  IsFullyConnected boot_node_names all peers g =
      (In g.0 boot_node_names
        → All
            (λ n.
              IsConnectedTo equal all (pos (length cluster.node_names) -ℤ pos 1)
                (peers_of peers g.0 n.0))
            g.1)
      × (¬ In g.0 boot_node_names
          → All
              (λ n.
                IsConnectedTo equal all (pos (length cluster.full_node_names) -ℤ pos 1)
                  (peers_of peers g.0 n.0))
              g.1)

  expected-IsFullyConnected_iff :
      (boot_node_names : List String) (all : ByGroup A) (peers : ByGroup (List A))
      (g : String × Dict A)
      → All
          (λ n.
            IsConnectedTo equal all
              (expected_peer_count equal cluster boot_node_names g.0)
              (peers_of peers g.0 n.0))
          g.1
        ↔ IsFullyConnected boot_node_names all peers g
  unfolding expected_peer_count
  expected-IsFullyConnected_iff boot_node_names all peers (k, v) =
      let (f, b) = contains_name-In_iff boot_node_names k in
      elim (Bool-cases (contains_name boot_node_names k)) [
        | inl e ↦
            rw (expected_peer_count, e)
              ((λ h. ((λ i. h), (λ n. absurd (n (f e))))), (λ h. h.0 (f e)))
        | inr e ↦
            let no : ¬ In k boot_node_names = λ i. let q = b i in cc in
            rw (expected_peer_count, e) ((λ h. ((λ i. absurd (no i)), (λ n. h))), (λ h. h.1 no))
      ]

  -- With the cluster's answers at hand, the check passes exactly when each node outside the light
  -- node groups has as many peers as there are other full nodes, or other nodes if it is a boot
  -- node's, each node outside the full node groups has a peer, and all these peers are overlays of
  -- the cluster.
  pub run_connectivity-ok_iff :
      (light_node_names full_node_names boot_node_names : List String) (all full light : ByGroup A)
      (full_peers light_peers : ByGroup (List A))
      → cluster.overlays [] ≡ ok all
      → cluster.overlays light_node_names ≡ ok full
      → cluster.peers light_node_names ≡ ok full_peers
      → cluster.overlays full_node_names ≡ ok light
      → cluster.peers full_node_names ≡ ok light_peers
      → (run_connectivity equal cluster light_node_names full_node_names boot_node_names ≡ ok tt)
        ↔ (All (IsFullyConnected boot_node_names all full_peers) full
            × All
                (λ g. All (λ n. IsConnectedTo equal all (pos 1) (peers_of light_peers g.0 n.0)) g.1)
                light)
  unfolding run_connectivity check_full_nodes check_light_nodes
  run_connectivity-ok_iff light_node_names full_node_names boot_node_names all full light full_peers
        light_peers a b c d e =
      let (f, g) =
        All-same_iff full (expected-IsFullyConnected_iff boot_node_names all full_peers) in
      let (f', g') =
        check_groups-ok_iff equal all full_peers (expected_peer_count equal cluster boot_node_names)
          full in
      rw (a, b, c, d, e)
        (cons-ok_iff _ _ ((λ h. f (f' h)), (λ h. g' (g h)))
          (check_groups-ok_iff equal all light_peers (λ group. pos 1) light))
