-- ===== src/Setup/Funding.antt =====
-- What `setupCluster` of cmd/beekeeper/cmd/cluster.go has done when it starts a cluster.
use beekeeper.Common.{
  ◌≡◌, refl, ◌⊎◌, inl, inr, true, false, Option, none, some, List, [], ◌∷◌, ◌++◌, String, str_eq,
  Bool-cases, ◌∙◌, sym, ap,
}
use mathlib.Core.Path.{subst}
use mathlib.Core.List.{append_assoc}
use beekeeper.Common.Outcome.{Outcome, ok, err, panic}
use beekeeper.Common.Dict.{Dict, lookup}
use beekeeper.Setup.Launch.{SetupError, Profiles, Launched, Setup, launch_bootnodes, launch_nodes}
use beekeeper.Setup.Cluster.{
  ClusterConfig, World, Action, set_up, funded, await, fund, set_up_others, set_up_groups,
  setup_cluster,
}
use beekeeper.Setup.Answered.{AreAnswered, await-ok}
use beekeeper.Setup.Same.{
  bootnode_nodes, other_nodes, launch_nodes-launched, launch_bootnodes-launched,
}

module _ (world : World) (profiles : Profiles) where
  module _ (config : ClusterConfig) (dynamic : config.use_static_endpoints ≡ false) where
    abbrev bs : List Launched
    bs = bootnode_nodes profiles true false config.node_groups

    abbrev ns : List Launched
    ns = other_nodes profiles true false config.node_groups

    -- The other nodes are set up and funded.
    abbrev OthersDone : List Action → List Action → Type 0
    OthersDone done after =
        (b : List String) × AreAnswered world profiles ns b
        × (world.funds b ≡ true)
        × (after ≡ done ++ set_up ns ∷ funded b ∷ [])

    others_done :
        (s : Setup) (done : List Action)
        → (set_up_others world profiles true config s done).0 ≡ ok tt
        → OthersDone done (set_up_others world profiles true config s done).1
    unfolding set_up_others fund
    others_done s done h = step (await world profiles launch) refl
      where
        launch : Outcome SetupError (Unit {0}) × Setup
        launch =
            launch_nodes profiles true config.use_static_endpoints s.bootnodes config.node_groups
              (record s { launched = [] })

        step :
            (r : Outcome SetupError (List String))
            → await world profiles launch ≡ r
            → OthersDone done (set_up_others world profiles true config s done).1
        step (err e) a = let h' = rw (set_up_others, a) at h in cc
        step panic a = let h' = rw (set_up_others, a) at h in cc
        step (ok b) a = elim (Bool-cases (world.funds b)) [
          | inr f ↦ let h' = rw (set_up_others, a, fund, f) at h in cc
          | inl f ↦
              let (lo, answered) = await-ok world profiles launch b a in
              let l : launch.1.launched ≡ ns =
                launch_nodes-launched profiles true config.use_static_endpoints s.bootnodes
                  config.node_groups (record s { launched = [] }) lo
                ∙ rw dynamic refl in
              (
                b,
                rw l at answered,
                f,
                rw (set_up_others, a, fund, f)
                    (rw l (append_assoc done (set_up ns ∷ []) (funded b ∷ []))),
              )
        ]

    -- The boot nodes are set up and, if they have an address, funded, before the other nodes are.
    abbrev pub IsSetUp : List Action → Type 0
    IsSetUp done =
        (a b : List String) × AreAnswered world profiles bs a
        × AreAnswered world profiles ns b
        × (world.funds b ≡ true)
        × (((a ≡ []) × (done ≡ set_up bs ∷ set_up ns ∷ funded b ∷ []))
            ⊎ ((world.funds a ≡ true) × (done ≡ set_up bs ∷ funded a ∷ set_up ns ∷ funded b ∷ [])))

    set_up_groups-IsSetUp :
        (set_up_groups world profiles true config).0 ≡ ok tt
        → IsSetUp (set_up_groups world profiles true config).1
    unfolding set_up_groups fund
    set_up_groups-IsSetUp h = step (await world profiles launch) refl
      where
        launch : Outcome SetupError (Unit {0}) × Setup
        launch =
            launch_bootnodes profiles true config.use_static_endpoints world.format
              config.node_groups (record { launched = []; configs = []; bootnodes = "" })

        all_bootnodes :
            (a : List String)
            → await world profiles launch ≡ ok a
            → (launch.1.launched ≡ bs) × AreAnswered world profiles bs a
        all_bootnodes a e =
            let (lo, answered) = await-ok world profiles launch a e in
            let l : launch.1.launched ≡ bs =
              launch_bootnodes-launched profiles true config.use_static_endpoints world.format
                config.node_groups (record { launched = []; configs = []; bootnodes = "" }) lo
              ∙ rw dynamic refl in
            (l, rw l at answered)

        step :
            (r : Outcome SetupError (List String))
            → await world profiles launch ≡ r
            → IsSetUp (set_up_groups world profiles true config).1
        step (err e) a = let h' = rw (set_up_groups, a) at h in cc
        step panic a = let h' = rw (set_up_groups, a) at h in cc
        step (ok []) e =
            let (l, answered) = all_bootnodes [] e in
            let (b, ans, f, q) =
              others_done launch.1 (set_up launch.1.launched ∷ []) (rw (set_up_groups, e) at h) in
            (
              [],
              b,
              answered,
              ans,
              f,
              inl (
                refl,
                rw (set_up_groups, e) (q ∙ ap (λ z. set_up z ∷ set_up ns ∷ funded b ∷ []) l),
              ),
            )
        step (ok (x ∷ rest)) e = elim (Bool-cases (world.funds (x ∷ rest))) [
          | inr g ↦ let h' = rw (set_up_groups, e, fund, g) at h in cc
          | inl g ↦
              let (l, answered) = all_bootnodes (x ∷ rest) e in
              let before = set_up launch.1.launched ∷ funded (x ∷ rest) ∷ [] in
              let paid : fund world profiles (x ∷ rest) (set_up launch.1.launched ∷ [])
                  ≡ (ok tt, before) =
                rw (fund, g) refl in
              let same : set_up_groups world profiles true config
                  ≡ set_up_others world profiles true config launch.1 before =
                rw (set_up_groups, e, paid)
                  (ap (λ r. set_up_others world profiles true config launch.1 r.1) paid) in
              let (b, ans, f, q) = others_done launch.1 before (ap (λ r. r.0) (sym same) ∙ h) in
              (
                x ∷ rest,
                b,
                answered,
                ans,
                f,
                inr (
                  g,
                  ap (λ r. r.1) same
                      ∙ q
                      ∙ ap (λ z. set_up z ∷ funded (x ∷ rest) ∷ set_up ns ∷ funded b ∷ []) l,
                ),
              )
        ]

  -- When setupCluster starts a cluster without an error, the cluster is defined and uses no static
  -- endpoints; it has set up all nodes of the boot node groups, each of which answered, then funded
  -- the addresses of these answers if any is not empty, then set up all nodes of the other groups,
  -- each of which answered, and then funded the addresses of theirs: all that are not empty, in the
  -- order of their arrival.
  pub setup_cluster-IsSetUp :
      (cluster_name geth_url wallet_key : String) (clusters : Dict ClusterConfig)
      → (setup_cluster world profiles cluster_name clusters geth_url wallet_key true).0 ≡ ok tt
      → (config : ClusterConfig) × (lookup cluster_name clusters ≡ some config)
        × ((dynamic : config.use_static_endpoints ≡ false) × IsSetUp config dynamic
              (setup_cluster world profiles cluster_name clusters geth_url wallet_key true).1)
  unfolding setup_cluster
  setup_cluster-IsSetUp n g w clusters h = elim (Bool-cases (str_eq n "")) [
    | inl e ↦ let h' = rw (setup_cluster, e) at h in cc
    | inr e ↦ defined e (lookup n clusters) refl
  ]
    where
      Goal : Type 0
      Goal =
          (config : ClusterConfig) × (lookup n clusters ≡ some config)
          × ((dynamic : config.use_static_endpoints ≡ false) × IsSetUp config dynamic
                (setup_cluster world profiles n clusters g w true).1)

      defined : str_eq n "" ≡ false → (o : Option ClusterConfig) → lookup n clusters ≡ o → Goal
      defined e none l = let h' = rw (setup_cluster, e, l) at h in cc
      defined e (some config) l = elim (Bool-cases config.use_static_endpoints) [
        | inl st ↦ let h' = rw (setup_cluster, e, l, st) at h in cc
        | inr st ↦ elim (Bool-cases (str_eq g "")) [
          | inl no_url ↦ let h' = rw (setup_cluster, e, l, st, no_url) at h in cc
          | inr url ↦ elim (Bool-cases (str_eq w "")) [
            | inl no_key ↦ let h' = rw (setup_cluster, e, l, st, url, no_key) at h in cc
            | inr key ↦
                let same : setup_cluster world profiles n clusters g w true
                    ≡ set_up_groups world profiles true config =
                  rw (setup_cluster, e, l, st, url, key) refl in
                (
                  config,
                  l,
                  (
                    st,
                    subst (λ r. IsSetUp config st r.1) (sym same)
                        (set_up_groups-IsSetUp config st (ap (λ r. r.0) (sym same) ∙ h)),
                  ),
                )
          ]
        ]
      ]
