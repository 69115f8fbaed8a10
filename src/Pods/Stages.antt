-- ===== src/Pods/Stages.antt =====
-- The watch of a pod's recreation goes through four stages (pkg/k8s/pod/client.go): each waits for
-- the first event of its kind.
use beekeeper.Common.{
  ℕ, ◌≡◌, refl, Bool, true, false, ◌&&◌, ◌||◌, Option, none, some, List, [], ◌∷◌, ◌++◌, All,
  if◌then◌else◌, String, str_eq, eq_iff, arith,
}
use beekeeper.Common.Outcome.{Outcome, ok, err}
use beekeeper.Pods.Lifecycle.{
  PodRecreationState, waiting_for_deletion, waiting_for_creation, waiting_for_running,
  waiting_for_completion, completed, EventType, added, modified, deleted, bookmark, error,
  ContainerStatus, Pod, Event, PodError, terminated_with_error, container_of, is_running,
  termination, process_event_in_state,
}

module _ {A : Type 0} where
  -- The first element that passes the test.
  abbrev pub find : (A → Bool) → List A → Option A
  find test [] = none
  find test (x ∷ xs) = if test x then some x else find test xs

  -- The first element of `xs` that passes the test is `x`, and `rest` follows it.
  abbrev pub First : (A → Bool) → List A → A → List A → Type 0
  First test xs x rest =
      (before : List A) × (xs ≡ before ++ x ∷ rest)
      × All (λ y. test y ≡ false) before
      × (test x ≡ true)

-- The status ends the container for good: with an error or completed.
abbrev pub is_final : String → ContainerStatus → Bool
is_final name status = str_eq status.name name && elim status.terminated [
  | none ↦ false
  | some (reason, _) ↦ str_eq reason "Error" || str_eq reason "Completed"
]

abbrev pub completes : ContainerStatus → Bool
completes status = elim status.terminated [
  | none ↦ false
  | some (reason, _) ↦ str_eq reason "Completed"
]

-- The four kinds of events of a pod that are waited for. The verdict is whether the first status that
-- ends the container says that it has completed.
abbrev pub deletes : Event → Bool
deletes event = elim event.object [
  | none ↦ false
  | some pod ↦ elim event.type [ deleted ↦ true | _ ↦ false ]
]

abbrev pub adds : Event → Bool
adds event = elim event.object [
  | none ↦ false
  | some pod ↦ elim event.type [ added ↦ true | _ ↦ false ]
]

abbrev pub runs : String → Event → Bool
unfolding is_running container_of
runs name event = elim event.object [
  | none ↦ false
  | some pod ↦ elim event.type [
    | modified ↦ is_running (container_of name pod.containers) pod.container_statuses
    | _ ↦ false
  ]
]

abbrev pub verdict : String → Event → Option Bool
unfolding container_of
verdict name event = elim event.object [
  | none ↦ none
  | some pod ↦ elim event.type [
    | modified ↦ elim (find (is_final (container_of name pod.containers)) pod.container_statuses) [
      | none ↦ none
      | some status ↦ some (completes status)
    ]
    | _ ↦ none
  ]
]

abbrev pub ends : String → Event → Bool
unfolding verdict
ends name event = elim (verdict name event) [ none ↦ false | some _ ↦ true ]

module _ (name : String) where
  pub deletion_step :
      (e : Event)
      → process_event_in_state e waiting_for_deletion name
        ≡ ok (if deletes e then waiting_for_creation else waiting_for_deletion)
  unfolding process_event_in_state
  deletion_step e = ground arith

  pub creation_step :
      (e : Event)
      → process_event_in_state e waiting_for_creation name
        ≡ ok (if adds e then waiting_for_running else waiting_for_creation)
  unfolding process_event_in_state
  creation_step e = ground arith

  pub running_step :
      (e : Event)
      → process_event_in_state e waiting_for_running name
        ≡ ok (if runs name e then waiting_for_completion else waiting_for_running)
  unfolding process_event_in_state
  running_step e = ground arith

  -- What the verdict on an event means for the watch.
  unfoldable pub Judged : Option Bool → Outcome PodError PodRecreationState → Type 0
  Judged none r = r ≡ ok waiting_for_completion
  Judged (some true) r = r ≡ ok completed
  Judged (some false) r = (exit_code : ℕ) × (r ≡ err (terminated_with_error exit_code))

  abbrev of_first : Option ContainerStatus → Option Bool
  of_first none = none
  of_first (some status) = some (completes status)

  termination-Judged :
      (c : String) (statuses : List ContainerStatus)
      → Judged (of_first (find (is_final c) statuses)) (termination c statuses)
  unfolding termination Judged
  termination-Judged c [] = refl
  termination-Judged c (s ∷ statuses) =
      by_status (str_eq s.name c) refl s.terminated refl (termination-Judged c statuses)
    where
      Goal : Type 0
      Goal = Judged (of_first (find (is_final c) (s ∷ statuses))) (termination c (s ∷ statuses))

      by_reason :
          (reason : String) (code : ℕ)
          → str_eq s.name c ≡ true
          → s.terminated ≡ some (reason, code)
          → (x y : Bool) → str_eq reason "Error" ≡ x
          → str_eq reason "Completed" ≡ y
          → Judged (of_first (find (is_final c) statuses)) (termination c statuses)
          → Goal
      by_reason reason code n t true true ex ey rest =
          let same = (eq_iff reason "Error").0 ex in let e' = rw same at ey in cc
      by_reason reason code n t true false ex ey rest = rw (n, t, ex, ey) (code, refl)
      by_reason reason code n t false true ex ey rest = rw (n, t, ex, ey) (rw ey refl)
      by_reason reason code n t false false ex ey rest = rw (n, t, ex, ey) rest

      by_status :
          (b : Bool)
          → str_eq s.name c ≡ b
          → (t : Option (String × ℕ)) → s.terminated ≡ t
          → Judged (of_first (find (is_final c) statuses)) (termination c statuses)
          → Goal
      by_status false n t e rest = rw n rest
      by_status true n none e rest = rw (n, e) rest
      by_status true n (some (reason, code)) e rest =
          by_reason reason code n e (str_eq reason "Error") (str_eq reason "Completed") refl refl
            rest

  pub completion_step :
      (e : Event) → Judged (verdict name e) (process_event_in_state e waiting_for_completion name)
  unfolding process_event_in_state Judged
  completion_step e = by_object e.object refl
    where
      by_type :
          (pod : Pod) (k : EventType)
          → e.object ≡ some pod
          → e.type ≡ k
          → Judged (verdict name e) (process_event_in_state e waiting_for_completion name)
      by_type pod modified o q =
          rw (o, q) (termination-Judged (container_of name pod.containers) pod.container_statuses)
      by_type pod added o q = rw (o, q) refl
      by_type pod deleted o q = rw (o, q) refl
      by_type pod bookmark o q = rw (o, q) refl
      by_type pod error o q = rw (o, q) refl

      by_object :
          (o : Option Pod)
          → e.object ≡ o
          → Judged (verdict name e) (process_event_in_state e waiting_for_completion name)
      by_object none o = rw o refl
      by_object (some pod) o = by_type pod e.type o refl
