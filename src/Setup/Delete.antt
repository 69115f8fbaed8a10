-- ===== src/Setup/Delete.antt =====
-- `deleteCluster` of cmd/beekeeper/cmd/cluster.go. Whether the cluster deletes a node or a volume is
-- a parameter; what was deleted is logged.
use beekeeper.Common.{
  ℕ, zero, suc, Bool, true, false, Option, none, some, List, [], ◌∷◌, ◌++◌, if◌then◌else◌, String,
  str_eq,
}
use Prim.Native.String.{◌++◌ as str_append}
use beekeeper.Common.Outcome.{Outcome, ok, err, panic}
use beekeeper.Common.Dict.{Dict, lookup}
use beekeeper.Setup.Names.{ClusterNode, ClusterNodeGroup, bootnode_mode, node_name, numbered}
use beekeeper.Setup.Launch.{
  SetupError, node_group_not_defined, node_failed, missing_cluster_name, cluster_not_defined,
  Profiles,
}

-- A group and a node of it.
abbrev pub Member : Type 0
Member = String × String

-- The nodes and the volumes that are deleted.
pub record Deleted : Type 0 where
  pub members : List Member
  pub volumes : List String

pub record Deletes : Type 0 where
  pub deletes_node : Member → Bool
  pub deletes_volume : String → Bool

unfoldable pub listed_names : String → ℕ → List ClusterNode → List String
unfolding node_name
listed_names ng_name i [] = []
listed_names ng_name i (node ∷ nodes) =
    node_name ng_name i node ∷ listed_names ng_name (suc i) nodes

unfoldable pub counted_names : String → ℕ → ℕ → List String
unfolding numbered
counted_names ng_name i zero = []
counted_names ng_name i (suc count) = numbered ng_name i ∷ counted_names ng_name (suc i) count

-- The count of a group of boot nodes is not read.
unfoldable pub group_names : String → ClusterNodeGroup → List String
unfolding listed_names counted_names
group_names ng_name v =
    if str_eq v.mode bootnode_mode then listed_names ng_name 0 v.nodes else elim v.nodes [
      | [] ↦ counted_names ng_name 0 v.count
      | node ∷ nodes ↦ listed_names ng_name 0 (node ∷ nodes)
    ]

module _ (cluster : Deletes) (delete_storage : Bool) (profiles : Profiles) where
  -- The volume of a node; `*ngConfig.PersistenceEnabled` of a profile that does not set it is nil.
  unfoldable pub delete_volume :
      Option Bool → String → Deleted → Outcome SetupError (Unit {0}) × Deleted
  delete_volume persistence name d =
      let volume = str_append "data-" (str_append name "-0") in
      if delete_storage
      then elim persistence [
        | none ↦ (panic, d)
        | some false ↦ (ok tt, d)
        | some true ↦
            if cluster.deletes_volume volume
            then (ok tt, record d { volumes = d.volumes ++ volume ∷ [] })
            else (err (node_failed name), d)
      ]
      else (ok tt, d)

  unfoldable pub delete_nodes :
      String → Option Bool → List String → Deleted → Outcome SetupError (Unit {0}) × Deleted
  unfolding delete_volume
  delete_nodes ng_name persistence [] d = (ok tt, d)
  delete_nodes ng_name persistence (name ∷ names) d =
      let (r, d') =
        delete_volume persistence name (record d { members = d.members ++ (ng_name, name) ∷ [] }) in
      elim (cluster.deletes_node (ng_name, name)) [
        | false ↦ (err (node_failed name), d)
        | true ↦ elim r [
          | ok _ ↦ delete_nodes ng_name persistence names d'
          | err e ↦ (err e, d')
          | panic ↦ (panic, d')
        ]
      ]

  unfoldable pub delete_groups :
      Dict ClusterNodeGroup → Deleted → Outcome SetupError (Unit {0}) × Deleted
  unfolding lookup group_names delete_nodes
  delete_groups [] d = (ok tt, d)
  delete_groups ((ng_name, v) ∷ groups) d = elim (lookup v.config profiles.node_groups) [
    | none ↦ (err (node_group_not_defined v.config), d)
    | some persistence ↦
        let (r, d') = delete_nodes ng_name persistence (group_names ng_name v) d in
        elim r [ ok _ ↦ delete_groups groups d' | err e ↦ (err e, d') | panic ↦ (panic, d') ]
  ]

  unfoldable pub delete_cluster :
      String → Dict (Dict ClusterNodeGroup) → Outcome SetupError (Unit {0}) × Deleted
  unfolding lookup delete_groups
  delete_cluster cluster_name clusters =
      let nothing : Deleted = record { members = []; volumes = [] } in
      if str_eq cluster_name ""
      then (err missing_cluster_name, nothing)
      else elim (lookup cluster_name clusters) [
        | none ↦ (err cluster_not_defined, nothing)
        | some groups ↦ delete_groups groups nothing
      ]
