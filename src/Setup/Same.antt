-- ===== src/Setup/Same.antt =====
-- The nodes that a setup launches and the nodes that a deletion deletes
-- (cmd/beekeeper/cmd/cluster.go).
use beekeeper.Common.{
  ◌≡◌, refl, inl, inr, Bool, true, false, Option, none, some, List, [], ◌∷◌, ◌++◌, if◌then◌else◌,
  String, str_eq, Bool-cases, ◌∙◌, sym,
}
use mathlib.Core.List.{append_assoc, append-nil}
use beekeeper.Common.Outcome.{ok}
use beekeeper.Common.Dict.{Dict, lookup}
use beekeeper.Setup.Names.{ClusterNodeGroup, bootnode_mode, get_endpoints}
use beekeeper.Setup.Launch.{
  Config, Profiles, Launched, Setup, endpoint_nodes, listed_nodes, launch_bootnodes, group_nodes,
  launch_nodes,
}

-- The groups of boot nodes, with the nodes of each, and the other groups.
abbrev pub bootnode_nodes : Profiles → Bool → Bool → Dict ClusterNodeGroup → List Launched
bootnode_nodes profiles start is_static [] = []
bootnode_nodes profiles start is_static ((ng_name, v) ∷ groups) =
    (if str_eq v.mode bootnode_mode
      then (if is_static
          then endpoint_nodes profiles start is_static ng_name (get_endpoints [] v.node_endpoints)
          else listed_nodes profiles start is_static (some ng_name) ng_name 0 v.nodes)
      else [])
    ++ bootnode_nodes profiles start is_static groups

abbrev pub other_nodes : Profiles → Bool → Bool → Dict ClusterNodeGroup → List Launched
other_nodes profiles start is_static [] = []
other_nodes profiles start is_static ((ng_name, v) ∷ groups) =
    (if str_eq v.mode bootnode_mode then [] else group_nodes profiles start is_static ng_name v)
    ++ other_nodes profiles start is_static groups

module _ (profiles : Profiles) (start is_static : Bool) where
  pub launch_nodes-launched :
      (bootnodes_in : String) (groups : Dict ClusterNodeGroup) (s : Setup)
      → (launch_nodes profiles start is_static bootnodes_in groups s).0 ≡ ok tt
      → (launch_nodes profiles start is_static bootnodes_in groups s).1.launched
        ≡ s.launched ++ other_nodes profiles start is_static groups
  unfolding launch_nodes
  launch_nodes-launched b [] s h = sym (append-nil s.launched)
  launch_nodes-launched b ((g, v) ∷ groups) s h = elim (Bool-cases (str_eq v.mode bootnode_mode)) [
    | inl m ↦ rw (launch_nodes, m) (launch_nodes-launched b groups s (rw (launch_nodes, m) at h))
    | inr m ↦
        profile m (lookup v.config profiles.node_groups) refl
          (λ t k. launch_nodes-launched b groups t k)
  ]
    where
      Goal : Type 0
      Goal =
          (launch_nodes profiles start is_static b ((g, v) ∷ groups) s).1.launched
          ≡ s.launched ++ other_nodes profiles start is_static ((g, v) ∷ groups)

      Rest : Type 0
      Rest =
          (t : Setup)
          → (launch_nodes profiles start is_static b groups t).0 ≡ ok tt
          → (launch_nodes profiles start is_static b groups t).1.launched
            ≡ t.launched ++ other_nodes profiles start is_static groups

      bee :
          (x : Option Bool)
          → str_eq v.mode bootnode_mode ≡ false
          → lookup v.config profiles.node_groups ≡ some x
          → (c : Option Config) → lookup v.bee_config profiles.bee_configs ≡ c
          → Rest
          → Goal
      bee x m p none q rest = let h' = rw (launch_nodes, m, p, q) at h in cc
      bee x m p (some config) q rest =
          rw (launch_nodes, m, p, q)
            (rest _ (rw (launch_nodes, m, p, q) at h)
              ∙ append_assoc s.launched (group_nodes profiles start is_static g v)
                  (other_nodes profiles start is_static groups))

      profile :
          str_eq v.mode bootnode_mode ≡ false
          → (x : Option (Option Bool)) → lookup v.config profiles.node_groups ≡ x
          → Rest
          → Goal
      profile m none p rest = let h' = rw (launch_nodes, m, p) at h in cc
      profile m (some x) p rest = bee x m p (lookup v.bee_config profiles.bee_configs) refl rest

  pub launch_bootnodes-launched :
      (format : String → String) (groups : Dict ClusterNodeGroup) (s : Setup)
      → (launch_bootnodes profiles start is_static format groups s).0 ≡ ok tt
      → (launch_bootnodes profiles start is_static format groups s).1.launched
        ≡ s.launched ++ bootnode_nodes profiles start is_static groups
  unfolding launch_bootnodes
  launch_bootnodes-launched f [] s h = sym (append-nil s.launched)
  launch_bootnodes-launched f ((g, v) ∷ groups) s h =
      elim (Bool-cases (str_eq v.mode bootnode_mode)) [
        | inr m ↦
            rw (launch_bootnodes, m)
              (launch_bootnodes-launched f groups s (rw (launch_bootnodes, m) at h))
        | inl m ↦
            profile m (lookup v.config profiles.node_groups) refl
              (λ t k. launch_bootnodes-launched f groups t k)
      ]
    where
      Goal : Type 0
      Goal =
          (launch_bootnodes profiles start is_static f ((g, v) ∷ groups) s).1.launched
          ≡ s.launched ++ bootnode_nodes profiles start is_static ((g, v) ∷ groups)

      Rest : Type 0
      Rest =
          (t : Setup)
          → (launch_bootnodes profiles start is_static f groups t).0 ≡ ok tt
          → (launch_bootnodes profiles start is_static f groups t).1.launched
            ≡ t.launched ++ bootnode_nodes profiles start is_static groups

      bee :
          (x : Option Bool)
          → str_eq v.mode bootnode_mode ≡ true
          → lookup v.config profiles.node_groups ≡ some x
          → (c : Option Config) → lookup v.bee_config profiles.bee_configs ≡ c
          → Rest
          → Goal
      bee x m p none q rest = let h' = rw (launch_bootnodes, m, p, q) at h in cc
      bee x m p (some config) q rest = elim (Bool-cases is_static) [
        | inl i ↦
            rw (launch_bootnodes, m, p, q, i)
              (rest _ (rw (launch_bootnodes, m, p, q, i) at h) ∙ append_assoc s.launched _ _)
        | inr i ↦
            rw (launch_bootnodes, m, p, q, i)
              (rest _ (rw (launch_bootnodes, m, p, q, i) at h) ∙ append_assoc s.launched _ _)
      ]

      profile :
          str_eq v.mode bootnode_mode ≡ true
          → (x : Option (Option Bool)) → lookup v.config profiles.node_groups ≡ x
          → Rest
          → Goal
      profile m none p rest = let h' = rw (launch_bootnodes, m, p) at h in cc
      profile m (some x) p rest = bee x m p (lookup v.bee_config profiles.bee_configs) refl rest
