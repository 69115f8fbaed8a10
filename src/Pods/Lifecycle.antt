-- ===== src/Pods/Lifecycle.antt =====
-- `WaitForPodRecreationAndCompletion` and `processEventInState` of pkg/k8s/pod/client.go. The
-- events that are handled before the deadline are a list; a closed channel gives events that hold
-- no pod.
use beekeeper.Common.{
  ℕ, Bool, true, false, ◌&&◌, ◌||◌, Option, none, some, List, [], ◌∷◌, if◌then◌else◌, String,
  str_eq,
}
use beekeeper.Common.Outcome.{Outcome, ok, err, panic}

pub data PodRecreationState : Type 0 where
  waiting_for_deletion waiting_for_creation waiting_for_running : PodRecreationState
  waiting_for_completion completed : PodRecreationState

pub data EventType : Type 0 where
  added modified deleted bookmark error : EventType

-- `terminated` has the reason and the exit code.
pub record ContainerStatus : Type 0 where
  pub name : String
  pub running : Bool
  pub terminated : Option (String × ℕ)

pub record Pod : Type 0 where
  pub name : String
  pub containers : List String
  pub container_statuses : List ContainerStatus

-- An event whose object is not a pod has none.
pub record Event : Type 0 where
  pub type : EventType
  pub object : Option Pod

pub data PodError : Type 0 where
  terminated_with_error : (exit_code : ℕ) → PodError
  timed_out : PodRecreationState → PodError

-- The first container stands in for an empty name.
unfoldable pub container_of : String → List String → String
container_of name [] = name
container_of name (first ∷ rest) = if str_eq name "" then first else name

unfoldable pub is_running : String → List ContainerStatus → Bool
is_running name [] = false
is_running name (status ∷ statuses) =
    (str_eq status.name name && status.running) || is_running name statuses

-- The loop over the statuses once the container runs.
unfoldable pub termination : String → List ContainerStatus → Outcome PodError PodRecreationState
termination name [] = ok waiting_for_completion
termination name (status ∷ statuses) =
    let rest = termination name statuses in
    if str_eq status.name name
    then elim status.terminated [
      | none ↦ rest
      | some (reason, exit_code) ↦
          if str_eq reason "Error"
          then err (terminated_with_error exit_code)
          else if str_eq reason "Completed"
          then ok completed
          else rest
    ]
    else rest

unfoldable pub on_pod :
    EventType → String → Pod → PodRecreationState → Outcome PodError PodRecreationState
unfolding container_of is_running termination
on_pod deleted name pod waiting_for_deletion = ok waiting_for_creation
on_pod added name pod waiting_for_creation = ok waiting_for_running
on_pod modified name pod waiting_for_running =
    if is_running (container_of name pod.containers) pod.container_statuses
    then ok waiting_for_completion
    else ok waiting_for_running
on_pod modified name pod waiting_for_completion =
    termination (container_of name pod.containers) pod.container_statuses
on_pod kind name pod state = ok state

unfoldable pub process_event_in_state :
    Event → PodRecreationState → String → Outcome PodError PodRecreationState
unfolding on_pod
process_event_in_state event state name = elim event.object [
  | none ↦ ok state
  | some pod ↦ on_pod event.type name pod state
]

abbrev pub is_completed : PodRecreationState → Bool
is_completed completed = true
is_completed _ = false

-- The loop from a state on, until the deadline.
unfoldable pub watch : String → PodRecreationState → List Event → Outcome PodError (Unit {0})
unfolding process_event_in_state
watch name state [] = err (timed_out state)
watch name state (event ∷ events) = elim (process_event_in_state event state name) [
  | err e ↦ err e
  | panic ↦ panic
  | ok next ↦ elim (is_completed next) [ true ↦ ok tt | false ↦ watch name next events ]
]

unfoldable pub wait_for_pod_recreation_and_completion :
    String → List Event → Outcome PodError (Unit {0})
unfolding watch
wait_for_pod_recreation_and_completion name events = watch name waiting_for_deletion events
