-- ===== src/Setup/Launch.antt =====
-- What `setupBootnodes` and `setupNodes` of cmd/beekeeper/cmd/cluster.go launch: a goroutine for each
-- node, which is set up if the cluster is started, and added otherwise.
use beekeeper.Common.{
  ℕ, zero, suc, Bool, false, Option, none, some, List, [], ◌∷◌, ◌++◌, if◌then◌else◌, String, str_eq,
}
use beekeeper.Common.Outcome.{Outcome, ok, err}
use beekeeper.Common.Dict.{Dict, lookup, insert}
use beekeeper.Setup.Names.{
  ClusterNode, ClusterNodeGroup, bootnode_mode, node_name, numbered, get_endpoints,
}

pub data SetupError : Type 0 where
  node_group_not_defined bee_not_defined node_failed : (name : String) → SetupError
  missing_cluster_name cluster_not_defined static_endpoints endpoint_not_provided : SetupError
  wallet_key_not_provided funding_failed : SetupError

-- A bee configuration: its bootnodes, and the profile that its other settings come from.
pub record Config : Type 0 where
  pub bootnodes : String
  pub profile : String

-- The profiles of the configuration; of a node group, whether persistence is enabled.
pub record Profiles : Type 0 where
  pub node_groups : Dict (Option Bool)
  pub bee_configs : Dict Config

-- A goroutine's node. `config` names the group whose configuration the options point to.
pub record Launched : Type 0 where
  pub group : String
  pub name : String
  pub start : Bool
  pub api_url : Option String
  pub config : Option String
  pub libp2p_key : String
  pub swarm_key : Option String

-- The goroutines so far, the configurations that they share, and the bootnodes of the last node.
pub record Setup : Type 0 where
  pub launched : List Launched
  pub configs : Dict Config
  pub bootnodes : String

module _ (profiles : Profiles) (start is_static : Bool) where
  unfoldable pub endpoint_nodes : String → Dict String → List Launched
  endpoint_nodes ng_name [] = []
  endpoint_nodes ng_name ((name, api_url) ∷ endpoints) =
      record {
        group = ng_name;
        name = name;
        start = false;
        api_url = some api_url;
        config = some ng_name;
        libp2p_key = "";
        swarm_key = none;
      }
      ∷ endpoint_nodes ng_name endpoints

  -- The listed nodes of a group, from number `i` on.
  unfoldable pub listed_nodes : Option String → String → ℕ → List ClusterNode → List Launched
  unfolding node_name
  listed_nodes config ng_name i [] = []
  listed_nodes config ng_name i (node ∷ nodes) =
      record {
        group = ng_name;
        name = node_name ng_name i node;
        start = start;
        api_url = none;
        config = config;
        libp2p_key = node.libp2p_key;
        swarm_key = node.swarm_key;
      }
      ∷ listed_nodes config ng_name (suc i) nodes

  -- The nodes of a group that lists none: `count` of them, from number `i` on.
  unfoldable pub counted_nodes : String → ℕ → ℕ → List Launched
  unfolding numbered
  counted_nodes ng_name i zero = []
  counted_nodes ng_name i (suc count) =
      record {
        group = ng_name;
        name = numbered ng_name i;
        start = start;
        api_url = none;
        config = none;
        libp2p_key = "";
        swarm_key = none;
      }
      ∷ counted_nodes ng_name (suc i) count

  -- The bootnodes are those of the last node: each node writes them to the shared configuration.
  -- `format` is `fmt.Sprintf` with the namespace.
  unfoldable pub last_bootnodes : (String → String) → String → List ClusterNode → String
  last_bootnodes format before [] = before
  last_bootnodes format before (node ∷ nodes) = last_bootnodes format (format node.bootnodes) nodes

  unfoldable pub launch_bootnodes :
      (String → String) → Dict ClusterNodeGroup → Setup → Outcome SetupError (Unit {0}) × Setup
  unfolding lookup insert endpoint_nodes get_endpoints listed_nodes last_bootnodes
  launch_bootnodes format [] s = (ok tt, s)
  launch_bootnodes format ((ng_name, v) ∷ groups) s =
      let skip = launch_bootnodes format groups s in
      let enter = λ (config : Config).
        (if is_static
          then launch_bootnodes format groups (record s {
            launched = s.launched ++ endpoint_nodes ng_name (get_endpoints [] v.node_endpoints);
            configs = insert ng_name config s.configs;
          })
          else launch_bootnodes format groups (record s {
            launched = s.launched ++ listed_nodes (some ng_name) ng_name 0 v.nodes;
            configs =
                insert ng_name
                  (record config { bootnodes = last_bootnodes format config.bootnodes v.nodes })
                  s.configs;
            bootnodes = last_bootnodes format s.bootnodes v.nodes;
          })) in
      if str_eq v.mode bootnode_mode
      then elim (lookup v.config profiles.node_groups) [
        | none ↦ (err (node_group_not_defined v.config), s)
        | some _ ↦ elim (lookup v.bee_config profiles.bee_configs) [
          | none ↦ (err (bee_not_defined v.bee_config), s)
          | some config ↦ enter config
        ]
      ]
      else skip

  -- The nodes of one group that is no boot node group.
  unfoldable pub group_nodes : String → ClusterNodeGroup → List Launched
  unfolding endpoint_nodes get_endpoints listed_nodes counted_nodes
  group_nodes ng_name v =
      if is_static
      then endpoint_nodes ng_name (get_endpoints [] v.node_endpoints)
      else elim v.nodes [
        | [] ↦ counted_nodes ng_name 0 v.count
        | node ∷ nodes ↦ listed_nodes none ng_name 0 (node ∷ nodes)
      ]

  unfoldable pub launch_nodes :
      String → Dict ClusterNodeGroup → Setup → Outcome SetupError (Unit {0}) × Setup
  unfolding lookup insert group_nodes
  launch_nodes bootnodes_in [] s = (ok tt, s)
  launch_nodes bootnodes_in ((ng_name, v) ∷ groups) s =
      let skip = launch_nodes bootnodes_in groups s in
      let enter = λ (config : Config). launch_nodes bootnodes_in groups (record s {
        launched = s.launched ++ group_nodes ng_name v;
        configs =
            insert ng_name
              (if str_eq config.bootnodes ""
                then record config { bootnodes = bootnodes_in }
                else config)
              s.configs;
      }) in
      if str_eq v.mode bootnode_mode then skip else elim (lookup v.config profiles.node_groups) [
        | none ↦ (err (node_group_not_defined v.config), s)
        | some _ ↦ elim (lookup v.bee_config profiles.bee_configs) [
          | none ↦ (err (bee_not_defined v.bee_config), s)
          | some config ↦ enter config
        ]
      ]
