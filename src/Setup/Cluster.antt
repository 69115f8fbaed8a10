-- ===== src/Setup/Cluster.antt =====
-- `setupCluster` of cmd/beekeeper/cmd/cluster.go: boot nodes, their funding, the other nodes, theirs.
use beekeeper.Common.{
  Bool, ◌&&◌, Option, none, some, List, [], ◌∷◌, ◌++◌, if◌then◌else◌, String, str_eq,
}
use mathlib.Core.List.{Permᴰ}
use beekeeper.Common.Outcome.{Outcome, ok, err, panic}
use beekeeper.Common.Dict.{Dict, lookup}
use beekeeper.Setup.Names.{ClusterNodeGroup}
use beekeeper.Setup.Launch.{
  SetupError, missing_cluster_name, cluster_not_defined, static_endpoints, endpoint_not_provided,
  wallet_key_not_provided, funding_failed, Profiles, Launched, Setup, launch_bootnodes,
  launch_nodes,
}
use beekeeper.Setup.Results.{NodeResult, receive}

pub record ClusterConfig : Type 0 where
  pub use_static_endpoints : Bool
  pub node_groups : Dict ClusterNodeGroup

-- The order in which the goroutines send, all of them once, what each comes to, and whether funding succeeds. `format`
-- is `fmt.Sprintf` with the namespace.
pub record World : Type 0 where
  pub arrival : List Launched → List Launched
  pub arrives : (ls : List Launched) → Permᴰ ls (arrival ls)
  pub answer : Launched → Option String
  pub funds : List String → Bool
  pub format : String → String

-- What has been done: goroutines that have been launched and have all answered, and addresses funded.
pub data Action : Type 0 where
  set_up : List Launched → Action
  funded : List String → Action

abbrev pub results_of : (Launched → Option String) → List Launched → List NodeResult
results_of answer [] = []
results_of answer (l ∷ ls) = (l.name, answer l) ∷ results_of answer ls

module _ (world : World) (profiles : Profiles) where
  -- The results of the goroutines that a launch has started; they are waited for only if it succeeds.
  unfoldable pub await : Outcome SetupError (Unit {0}) × Setup → Outcome SetupError (List String)
  unfolding receive
  await (ok _, s) = receive [] (results_of world.answer (world.arrival s.launched))
  await (err e, s) = err e
  await (panic, s) = panic

  unfoldable pub fund : List String → List Action → Outcome SetupError (Unit {0}) × List Action
  fund addresses done =
      if world.funds addresses
      then (ok tt, done ++ funded addresses ∷ [])
      else (err funding_failed, done)

  -- The second half, after the boot nodes.
  unfoldable pub set_up_others :
      Bool → ClusterConfig → Setup → List Action → Outcome SetupError (Unit {0}) × List Action
  unfolding await fund launch_nodes
  set_up_others start config s done =
      let launch =
        launch_nodes profiles start config.use_static_endpoints s.bootnodes config.node_groups
          (record s { launched = [] }) in
      elim (await launch) [
        | err e ↦ (err e, done)
        | panic ↦ (panic, done)
        | ok addresses ↦
            if start
            then fund addresses (done ++ set_up launch.1.launched ∷ [])
            else (ok tt, done ++ set_up launch.1.launched ∷ [])
      ]

  unfoldable pub set_up_groups : Bool → ClusterConfig → Outcome SetupError (Unit {0}) × List Action
  unfolding await fund launch_bootnodes set_up_others
  set_up_groups start config =
      let launch =
        launch_bootnodes profiles start config.use_static_endpoints world.format config.node_groups
          (record { launched = []; configs = []; bootnodes = "" }) in
      elim (await launch) [
        | err e ↦ (err e, [])
        | panic ↦ (panic, [])
        | ok addresses ↦ elim addresses [
          | [] ↦ set_up_others start config launch.1 (set_up launch.1.launched ∷ [])
          | a ∷ rest ↦
              let (r, done) = fund (a ∷ rest) (set_up launch.1.launched ∷ []) in
              if start
              then elim r [
                | ok _ ↦ set_up_others start config launch.1 done
                | err e ↦ (err e, done)
                | panic ↦ (panic, done)
              ]
              else set_up_others start config launch.1 (set_up launch.1.launched ∷ [])
        ]
      ]

  unfoldable pub setup_cluster :
      String
      → Dict ClusterConfig
      → String
      → String
      → Bool
      → Outcome SetupError (Unit {0}) × List Action
  unfolding lookup set_up_groups
  setup_cluster cluster_name clusters geth_url wallet_key start =
      if str_eq cluster_name ""
      then (err missing_cluster_name, [])
      else elim (lookup cluster_name clusters) [
        | none ↦ (err cluster_not_defined, [])
        | some config ↦
            if start && config.use_static_endpoints
            then (err static_endpoints, [])
            else if start && str_eq geth_url ""
            then (err endpoint_not_provided, [])
            else if start && str_eq wallet_key ""
            then (err wallet_key_not_provided, [])
            else set_up_groups start config
      ]
