-- ===== src/KubeApi/SetClient.antt =====
-- The client of stateful sets, pkg/k8s/statefulset/client.go, and the update strategy of
-- pkg/k8s/statefulset/statefulset.go.
use beekeeper.Common.{
  ℕ, Bool, Option, none, some, List, [], ◌∷◌, ◌++◌, if◌then◌else◌, String, str_eq, ◌==◌,
}
use beekeeper.Common.Outcome.{Outcome, ok, err, panic}
use beekeeper.KubeApi.Objects.{
  StatefulSetUpdateStrategy, StatefulSet, delete_set, update_set, create_set, update_scale, Log,
  found, not_found, failed, Api, KubeError, getting_set, deleting_set, creating_set, updating_set,
  scaling_set, listing_sets, watch_closed, context_done,
}

abbrev pub on_delete : String
on_delete = "OnDelete"

abbrev pub rolling : String
rolling = "RollingUpdate"

pub record UpdateStrategy : Type 0 where
  pub type : String
  pub rolling_update_partition : Option ℕ

-- The type of a strategy of the API is compared with `on_delete` alone.
unfoldable pub new_update_strategy : StatefulSetUpdateStrategy → UpdateStrategy
new_update_strategy us =
    if str_eq us.type on_delete
    then record { type = on_delete; rolling_update_partition = none }
    else record {
      type = rolling;
      rolling_update_partition = elim us.rolling_update [
        | none ↦ none
        | some partition ↦ partition
      ];
    }

unfoldable pub to_k8s : UpdateStrategy → StatefulSetUpdateStrategy
to_k8s u =
    if str_eq u.type on_delete
    then record { type = on_delete; rolling_update = none }
    else record { type = rolling; rolling_update = some u.rolling_update_partition }

-- An assignment to the image of the first container, or none if there is no container.
unfoldable pub with_image : String → StatefulSet → Option StatefulSet
with_image image stateful_set = elim stateful_set.containers [
  | [] ↦ none
  | c ∷ cs ↦ some (record stateful_set { containers = record c { image = image } ∷ cs })
]

-- The names of the sets with a number of replicas: 1 for the running ones, 0 for the stopped ones.
abbrev pub names_with : ℕ → List StatefulSet → List String
names_with n [] = []
names_with n (s ∷ sets) =
    let rest = names_with n sets in if s.replicas == n then s.name ∷ rest else rest

module _ (api : Api) where
  unfoldable pub delete_stateful_set : String → Log → Outcome KubeError (Unit {0}) × Log
  delete_stateful_set name log = elim (api.change log (delete_set name)) [
    | found _ ↦ (ok tt, log ++ delete_set name ∷ [])
    | not_found ↦ (ok tt, log)
    | failed ↦ (err (deleting_set name), log)
  ]

  unfoldable pub ready_replicas_of : String → Log → Outcome KubeError ℕ
  ready_replicas_of name log = elim (api.get_set log name) [
    | found s ↦ ok s.ready_replicas
    | not_found ↦ ok 0
    | failed ↦ err (getting_set name)
  ]

  unfoldable pub running_stateful_sets : Log → Outcome KubeError (List String)
  running_stateful_sets log = elim (api.list_sets log) [
    | found sets ↦ ok (names_with 1 sets)
    | not_found ↦ ok []
    | failed ↦ err listing_sets
  ]

  unfoldable pub stopped_stateful_sets : Log → Outcome KubeError (List String)
  stopped_stateful_sets log = elim (api.list_sets log) [
    | found sets ↦ ok (names_with 0 sets)
    | not_found ↦ ok []
    | failed ↦ err listing_sets
  ]

  unfoldable pub stateful_sets : Log → Outcome KubeError (List StatefulSet)
  stateful_sets log = elim (api.list_sets log) [
    | found sets ↦ ok sets
    | not_found ↦ err listing_sets
    | failed ↦ err listing_sets
  ]

  -- `Get`
  unfoldable pub stateful_set_of : String → Log → Outcome KubeError StatefulSet
  stateful_set_of name log = elim (api.get_set log name) [
    | found s ↦ ok s
    | not_found ↦ err (getting_set name)
    | failed ↦ err (getting_set name)
  ]

  unfoldable pub scale : String → ℕ → Log → Outcome KubeError (Unit {0}) × Log
  scale name replicas log = elim (api.change log (update_scale name replicas)) [
    | found _ ↦ (ok tt, log ++ update_scale name replicas ∷ [])
    | not_found ↦ (err (scaling_set name), log)
    | failed ↦ (err (scaling_set name), log)
  ]

  -- `Set`: an update, or a creation if there is no such set.
  unfoldable pub set_stateful_set : StatefulSet → Log → Outcome KubeError (Unit {0}) × Log
  set_stateful_set spec log = elim (api.change log (update_set spec)) [
    | found _ ↦ (ok tt, log ++ update_set spec ∷ [])
    | failed ↦ (err (updating_set spec.name), log)
    | not_found ↦ elim (api.change log (create_set spec)) [
      | found _ ↦ (ok tt, log ++ create_set spec ∷ [])
      | not_found ↦ (err (creating_set spec.name), log)
      | failed ↦ (err (creating_set spec.name), log)
    ]
  ]

  unfoldable pub update : StatefulSet → Log → Outcome KubeError (Unit {0}) × Log
  update s log = elim (api.change log (update_set s)) [
    | found _ ↦ (ok tt, log ++ update_set s ∷ [])
    | not_found ↦ (err (updating_set s.name), log)
    | failed ↦ (err (updating_set s.name), log)
  ]

  -- A set that is not found is no error; one without a container panics.
  unfoldable pub update_image : String → String → Log → Outcome KubeError (Unit {0}) × Log
  unfolding with_image update
  update_image name image log = elim (api.get_set log name) [
    | not_found ↦ (ok tt, log)
    | failed ↦ (err (getting_set name), log)
    | found s ↦ elim (with_image image s) [ none ↦ (panic, log) | some s' ↦ update s' log ]
  ]

  -- A set that is not found has the strategy without a type.
  unfoldable pub get_update_strategy : String → Log → Outcome KubeError UpdateStrategy
  unfolding new_update_strategy
  get_update_strategy name log = elim (api.get_set log name) [
    | not_found ↦ ok (record { type = ""; rolling_update_partition = none })
    | failed ↦ err (getting_set name)
    | found s ↦ ok (new_update_strategy s.update_strategy)
  ]

-- `ReadyReplicasWatch`, over the sets of the events before the channel is closed or the context is
-- done; an event whose object is no set has none.
unfoldable pub ready_replicas_watch : Bool → List (Option StatefulSet) → Outcome KubeError ℕ
ready_replicas_watch closes [] = err (if closes then watch_closed else context_done)
ready_replicas_watch closes (none ∷ events) = ready_replicas_watch closes events
ready_replicas_watch closes (some s ∷ events) =
    let rest = ready_replicas_watch closes events in
    if s.replicas == s.ready_replicas then ok s.ready_replicas else rest
