-- ===== src/Examples/Recreations.antt =====
-- Runs of the watch of a pod's recreation (pkg/k8s/pod/client.go).
use beekeeper.Common.{◌≡◌, refl, ◌↔◌, true, false, none, some, List, [], ◌∷◌, String}
use beekeeper.Common.Outcome.{ok, err}
use beekeeper.Pods.Lifecycle.{
  EventType, added, modified, deleted, error, Pod, Event, ContainerStatus, terminated_with_error,
  timed_out, waiting_for_running, wait_for_pod_recreation_and_completion,
}
use beekeeper.Pods.Watch.{IsRecreated, wait_for_pod-ok_iff}

abbrev with_status : ContainerStatus → Pod
with_status status = record {
  name = "bee-0";
  containers = "side" ∷ "bee" ∷ [];
  container_statuses = record { name = "side"; running = true; terminated = none } ∷ status ∷ [];
}

abbrev event : EventType → ContainerStatus → Event
event kind status = record { type = kind; object = some (with_status status) }

abbrev idle : ContainerStatus
idle = record { name = "bee"; running = false; terminated = none }

abbrev busy : ContainerStatus
busy = record { name = "bee"; running = true; terminated = none }

abbrev ended : String → ContainerStatus
ended reason = record { name = "bee"; running = false; terminated = some (reason, 1) }

-- The watch skips what is out of turn: an addition before the deletion, an object that is no pod, and
-- a modification that says nothing of the container.
abbrev recreation : List Event
recreation =
    event added idle
    ∷ event deleted idle
    ∷ record { type = error; object = none }
    ∷ event added idle
    ∷ event modified idle
    ∷ event modified busy
    ∷ event modified busy
    ∷ event modified (ended "Completed")
    ∷ []

recreation_run : wait_for_pod_recreation_and_completion "bee" recreation ≡ ok tt
unfolding wait_for_pod_recreation_and_completion
recreation_run = refl

-- The first container, when none is named, is the sidecar, which goes on running.
first_container_run :
    wait_for_pod_recreation_and_completion "" (event deleted idle ∷ event added idle ∷ [])
    ≡ err (timed_out waiting_for_running)
unfolding wait_for_pod_recreation_and_completion
first_container_run = refl

failed_run :
    wait_for_pod_recreation_and_completion "bee" (
      event deleted idle
      ∷ event added idle
      ∷ event modified busy
      ∷ event modified (ended "Error")
      ∷ [])
    ≡ err (terminated_with_error 1)
unfolding wait_for_pod_recreation_and_completion
failed_run = refl

wait_for_pod-ok_iff_example :
    (wait_for_pod_recreation_and_completion "bee" recreation ≡ ok tt) ↔ IsRecreated "bee" recreation
wait_for_pod-ok_iff_example = wait_for_pod-ok_iff "bee" recreation
