-- ===== src/KubeApi/PodClient.antt =====
-- The client of pods, pkg/k8s/pod/client.go, but for the watch of a recreation.
use beekeeper.Common.{
  ℕ, suc, Bool, true, false, not, ◌&&◌, ◌||◌, Option, none, some, List, [], ◌∷◌, ◌++◌,
  if◌then◌else◌, String, str_eq,
}
use beekeeper.Common.Outcome.{Outcome, ok, err}
use beekeeper.KubeApi.Objects.{
  OwnerReference, Condition, Pod, StatefulSet, delete_pod, update_pod, create_pod, Log, found,
  not_found, failed, Api, KubeError, getting_pod, deleting_pod, creating_pod, updating_pod,
  not_controlled, listing_pods, watch_closed, context_done, pods_not_deleted, bad_phase,
  getting_set,
}

module _ (api : Api) where
  -- `Set`: an update, or a creation if there is no such pod.
  unfoldable pub set_pod : String → Log → Outcome KubeError (Unit {0}) × Log
  set_pod name log = elim (api.change log (update_pod name)) [
    | found _ ↦ (ok tt, log ++ update_pod name ∷ [])
    | failed ↦ (err (updating_pod name), log)
    | not_found ↦ elim (api.change log (create_pod name)) [
      | found _ ↦ (ok tt, log ++ create_pod name ∷ [])
      | not_found ↦ (err (creating_pod name), log)
      | failed ↦ (err (creating_pod name), log)
    ]
  ]

  -- `Get`
  unfoldable pub pod_of : String → Log → Outcome KubeError Pod
  pod_of name log = elim (api.get_pod log name) [
    | found pod ↦ ok pod
    | not_found ↦ err (getting_pod name)
    | failed ↦ err (getting_pod name)
  ]

  -- `Delete`, which returns whether there was such a pod.
  unfoldable pub delete : String → Log → Outcome KubeError Bool × Log
  delete name log = elim (api.change log (delete_pod name)) [
    | found _ ↦ (ok true, log ++ delete_pod name ∷ [])
    | not_found ↦ (ok false, log)
    | failed ↦ (err (deleting_pod name), log)
  ]

  -- The loop of `DeletePods`, with the number of pods deleted and the names of those that were not.
  unfoldable pub delete_listed : List Pod → ℕ → List String → Log → (ℕ × List String) × Log
  delete_listed [] deleted_count kept log = ((deleted_count, kept), log)
  delete_listed (pod ∷ pods) deleted_count kept log =
      let skip = delete_listed pods deleted_count kept log in
      let deleted = delete_listed pods (suc deleted_count) kept (log ++ delete_pod pod.name ∷ []) in
      let refused = delete_listed pods deleted_count (kept ++ pod.name ∷ []) log in
      if pod.deleting then skip else elim (api.change log (delete_pod pod.name)) [
        | found _ ↦ deleted
        | not_found ↦ refused
        | failed ↦ refused
      ]

  -- The count is returned along with the error.
  unfoldable pub delete_pods : Log → (ℕ × Outcome KubeError (Unit {0})) × Log
  unfolding delete_listed
  delete_pods log = elim (api.list_pods log) [
    | none ↦ ((0, err listing_pods), log)
    | some pods ↦
        let ((deleted_count, kept), log') = delete_listed pods 0 [] log in
        elim kept [
          | [] ↦ ((deleted_count, ok tt), log')
          | name ∷ names ↦ ((deleted_count, err (pods_not_deleted (name ∷ names))), log')
        ]
  ]

  -- `controller_of` is the `GetControllerOf` of the Kubernetes library.
  unfoldable pub get_controlling_stateful_set :
      (List OwnerReference → Option OwnerReference) → String → Log → Outcome KubeError StatefulSet
  get_controlling_stateful_set controller_of name log = elim (api.get_pod log name) [
    | not_found ↦ err (getting_pod name)
    | failed ↦ err (getting_pod name)
    | found pod ↦ elim (controller_of pod.owner_references) [
      | none ↦ err (not_controlled name)
      | some owner ↦ elim (str_eq owner.kind "StatefulSet") [
        | false ↦ err (not_controlled name)
        | true ↦ elim (api.get_set log owner.name) [
          | found stateful_set ↦ ok stateful_set
          | not_found ↦ err (getting_set owner.name)
          | failed ↦ err (getting_set owner.name)
        ]
      ]
    ]
  ]

-- The events of a watch: whether an object was modified, and the pod if the object is one.
pub record PodEvent : Type 0 where
  pub modified : Bool
  pub object : Option Pod

unfoldable pub is_ready : List Condition → Bool
is_ready [] = false
is_ready (condition ∷ conditions) =
    (str_eq condition.type "Ready" && str_eq condition.status "True") || is_ready conditions

unfoldable pub is_new : Pod → Bool
unfolding is_ready
is_new pod =
    not (str_eq pod.pod_ip "")
    && not pod.deleting
    && str_eq pod.phase "Running"
    && is_ready pod.conditions

-- `WatchNewRunning`: the pods that are sent before the channel is closed or the context is done. The
-- watch ends with an error in both cases.
unfoldable pub watch_new_running : Bool → List PodEvent → List Pod × KubeError
unfolding is_new
watch_new_running closes [] = ([], (if closes then watch_closed else context_done))
watch_new_running closes (event ∷ events) =
    let (sent, e) = watch_new_running closes events in
    elim (event.modified) [
      | false ↦ (sent, e)
      | true ↦ elim event.object [
        | none ↦ (sent, e)
        | some pod ↦ if is_new pod then (pod ∷ sent, e) else (sent, e)
      ]
    ]

-- `WaitForRunning`, over the answers to the polls before the deadline.
unfoldable pub wait_for_running : String → List (Option Pod) → Outcome KubeError (Unit {0})
wait_for_running name [] = err context_done
wait_for_running name (none ∷ polls) = err (getting_pod name)
wait_for_running name (some pod ∷ polls) =
    let again = wait_for_running name polls in
    if str_eq pod.phase "Running"
    then ok tt
    else if str_eq pod.phase "Failed" || str_eq pod.phase "Unknown"
    then err (bad_phase name pod.phase)
    else again
