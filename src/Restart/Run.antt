-- ===== src/Restart/Run.antt =====
-- `Restart` of pkg/restart/restart.go. Nodes are their names, which are those of their pods.
use beekeeper.Common.{
  true, false, Option, none, some, List, [], ◌∷◌, ◌++◌, if◌then◌else◌, String, str_eq,
}
use beekeeper.Common.Outcome.{Outcome, ok, err, panic}
use beekeeper.Common.Dict.{Dict, lookup, insert}
use beekeeper.KubeApi.Objects.{OwnerReference, Log, Api, KubeError}
use beekeeper.KubeApi.PodClient.{pod_of, delete}
use beekeeper.KubeApi.SetClient.{on_delete, update_image, get_update_strategy}

pub data RestartError : Type 0 where
  kube : KubeError → RestartError
  nodes_failed : RestartError
  not_deleted : (pod_name : String) → RestartError

-- The sets by their names, with the pods of each.
abbrev pub Sets : Type 0
Sets = Dict (List String)

-- The first owner that is a stateful set.
unfoldable pub stateful_owner : List OwnerReference → Option String
stateful_owner [] = none
stateful_owner (owner ∷ owners) =
    if str_eq owner.kind "StatefulSet" then some owner.name else stateful_owner owners

-- `statefulSetMap[name] = append(statefulSetMap[name], node)`
unfoldable pub append_pod : String → String → Sets → Sets
unfolding lookup insert
append_pod name node sets =
    insert name ((elim (lookup name sets) [ none ↦ [] | some pods ↦ pods ]) ++ node ∷ []) sets

module _ (api : Api) where
  unfoldable pub restart_pod : String → Log → Outcome RestartError (Unit {0}) × Log
  unfolding delete
  restart_pod pod_name log =
      let (r, log') = delete api pod_name log in
      elim r [
        | ok deleted ↦ elim deleted [
          | true ↦ (ok tt, log')
          | false ↦ (err (not_deleted pod_name), log')
        ]
        | err e ↦ (err (kube e), log')
        | panic ↦ (panic, log')
      ]

  -- The deletion of pods one after the other, up to the first that fails.
  unfoldable pub restart_by_deleting_pods :
      List String → Log → Outcome RestartError (Unit {0}) × Log
  unfolding restart_pod
  restart_by_deleting_pods [] log = (ok tt, log)
  restart_by_deleting_pods (node ∷ nodes) log =
      let (r, log') = restart_pod node log in
      elim r [
        | ok _ ↦ restart_by_deleting_pods nodes log'
        | err e ↦ (err e, log')
        | panic ↦ (panic, log')
      ]

  -- The sets that own the pods of the nodes; a pod that no set owns is passed over.
  unfoldable pub stateful_set_map : Log → List String → Sets → Outcome RestartError Sets
  unfolding pod_of stateful_owner append_pod
  stateful_set_map log [] sets = ok sets
  stateful_set_map log (node ∷ nodes) sets = elim (pod_of api node log) [
    | err e ↦ err (kube e)
    | panic ↦ panic
    | ok pod ↦ elim (stateful_owner pod.owner_references) [
      | none ↦ stateful_set_map log nodes sets
      | some name ↦ stateful_set_map log nodes (append_pod name node sets)
    ]
  ]

  -- The update of one set, and the deletion of its pods if it only updates them on their deletion.
  unfoldable pub update_one :
      String → String → List String → Log → Outcome RestartError (Unit {0}) × Log
  unfolding get_update_strategy update_image restart_by_deleting_pods
  update_one image name pods log =
      let (r, log') = update_image api name image log in
      elim (get_update_strategy api name log) [
        | err e ↦ (err (kube e), log)
        | panic ↦ (panic, log)
        | ok strategy ↦ elim r [
          | err e ↦ (err (kube e), log')
          | panic ↦ (panic, log')
          | ok _ ↦
              if str_eq strategy.type on_delete
              then restart_by_deleting_pods pods log'
              else (ok tt, log')
        ]
      ]

  -- The loop over the map, in the order in which its entries are given.
  unfoldable pub update_each : String → Sets → Log → Outcome RestartError (Unit {0}) × Log
  unfolding update_one
  update_each image [] log = (ok tt, log)
  update_each image ((name, pods) ∷ sets) log =
      let (r, log') = update_one image name pods log in
      elim r [ ok _ ↦ update_each image sets log' | err e ↦ (err e, log') | panic ↦ (panic, log') ]

  -- `order` gives the order of the range over the map.
  unfoldable pub restart_with_image_update :
      (Sets → Sets) → List String → String → Log → Outcome RestartError (Unit {0}) × Log
  unfolding stateful_set_map update_each
  restart_with_image_update order nodes image log = elim (stateful_set_map log nodes []) [
    | ok sets ↦ update_each image (order sets) log
    | err e ↦ (err e, log)
    | panic ↦ (panic, log)
  ]

  -- `nodes` is what the provider answers.
  unfoldable pub restart :
      (Sets → Sets) → Option (List String) → String → Log → Outcome RestartError (Unit {0}) × Log
  unfolding restart_by_deleting_pods restart_with_image_update
  restart order nodes image log = elim nodes [
    | none ↦ (err nodes_failed, log)
    | some names ↦
        if str_eq image ""
        then restart_by_deleting_pods names log
        else restart_with_image_update order names image log
  ]
