-- ===== src/Examples/Restarts.antt =====
-- Restarts, deletions of pods and update strategies (pkg/restart, pkg/k8s) at concrete inputs.
use beekeeper.Common.{
  ◌≡◌, refl, ◌↔◌, ◌⊎◌, inl, inr, false, none, some, List, [], ◌∷◌, ◌++◌, In, if◌then◌else◌, length,
  String, str_eq,
}
use beekeeper.Common.Outcome.{ok}
use beekeeper.KubeApi.Objects.{
  OwnerReference, Pod, StatefulSet, delete_pod, Log, found, not_found, Api,
}
use beekeeper.KubeApi.PodClient.{delete_pods}
use beekeeper.KubeApi.SetClient.{UpdateStrategy, on_delete, rolling, new_update_strategy, to_k8s}
use beekeeper.KubeApi.Strategy.{IsStrategy, new_update_strategy-to_k8s_iff}
use beekeeper.KubeApi.Deletions.{Parts, live, deletions, ending, delete_pods-Parts}
use beekeeper.Restart.Run.{Sets, restart, restart_with_image_update, stateful_owner}
use beekeeper.Restart.Restarted.{Prefix, IsRestarted, restart_with_image_update-IsRestarted}
use beekeeper.Restart.Allowed.{IsAllowed, restart-IsAllowed}

abbrev pod : String → List OwnerReference → Pod
pod name owners = record {
  name = name;
  owner_references = owners;
  deleting = false;
  pod_ip = "";
  phase = "Running";
  conditions = [];
}

abbrev owners : List OwnerReference
owners = record { kind = "StatefulSet"; name = "bee" } ∷ []

abbrev owned : Pod
owned = pod "bee-0" owners

abbrev bee_set : StatefulSet
bee_set = record {
  name = "bee";
  update_strategy = record { type = on_delete; rolling_update = none };
  containers = record { image = "bee:1"; settings = "" } ∷ [];
  settings = "";
  replicas = 1;
  ready_replicas = 1;
}

-- A namespace with a pod that a set owns and one that none does. All changes are made.
abbrev namespace : Api
namespace = record {
  get_pod = λ log name.
      if str_eq name "bee-0"
      then found owned
      else if str_eq name "geth"
      then found (pod "geth" [])
      else not_found;
  list_pods = λ log. some (owned ∷ pod "geth" [] ∷ []);
  get_set = λ log name. if str_eq name "bee" then found bee_set else not_found;
  list_sets = λ log. found (bee_set ∷ []);
  change = λ log call. found tt;
}

abbrev as_given : Sets → Sets
as_given sets = sets

abbrev nodes : List String
nodes = "bee-0" ∷ "geth" ∷ []

owner_found : stateful_owner owned.owner_references ≡ some "bee"
unfolding stateful_owner
owner_found = refl

restart_run : (restart_with_image_update namespace as_given nodes "bee:2" []).0 ≡ ok tt
unfolding restart_with_image_update
restart_run = refl

restart_with_image_update-IsRestarted_example :
    (before : Log) × Prefix [] before
    × Prefix before (restart_with_image_update namespace as_given nodes "bee:2" []).1
    × ((namespace.get_set before "bee" ≡ not_found)
        ⊎ ((s : StatefulSet) × (namespace.get_set before "bee" ≡ found s)
            × IsRestarted namespace "bee:2" "bee-0" s
                (restart_with_image_update namespace as_given nodes "bee:2" []).1))
restart_with_image_update-IsRestarted_example =
    restart_with_image_update-IsRestarted namespace as_given nodes "bee:2" [] (λ sets e i. i)
      restart_run "bee-0" "bee" owned (inl refl) refl owner_found

simple_run :
    (restart namespace as_given (some nodes) "" []).1 ≡ delete_pod "bee-0" ∷ delete_pod "geth" ∷ []
unfolding restart
simple_run = refl

restart-IsAllowed_example :
    In (delete_pod "geth") [] ⊎ IsAllowed namespace [] nodes "" (delete_pod "geth")
restart-IsAllowed_example =
    restart-IsAllowed namespace [] nodes "" as_given (λ sets e i. i) (delete_pod "geth")
      (rw simple_run (inr (inl refl)))

delete_pods-Parts_example :
    (deleted : List String) × (refused : List String) × Parts namespace []
      (live (owned ∷ pod "geth" [] ∷ []))
      deleted
      refused
    × (delete_pods namespace [] ≡ ((length deleted, ending refused), [] ++ deletions deleted))
delete_pods-Parts_example = delete_pods-Parts namespace [] (owned ∷ pod "geth" [] ∷ []) refl

abbrev second : UpdateStrategy
second = record { type = rolling; rolling_update_partition = some 2 }

new_update_strategy-to_k8s_iff_example :
    (new_update_strategy (to_k8s second) ≡ second) ↔ IsStrategy second
new_update_strategy-to_k8s_iff_example = new_update_strategy-to_k8s_iff second
