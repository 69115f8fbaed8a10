-- ===== src/Pods/Watch.antt =====
-- When the watch of a pod's recreation ends well (pkg/k8s/pod/client.go).
use beekeeper.Common.{
  ◌≡◌, refl, ◌↔◌, inl, inr, Bool, true, false, Option, none, some, List, [], ◌∷◌, ◌++◌,
  if◌then◌else◌, String, arith, Bool-cases, ◌∙◌,
}
use beekeeper.Common.Outcome.{ok}
use beekeeper.Pods.Lifecycle.{
  PodRecreationState, waiting_for_deletion, waiting_for_creation, waiting_for_running,
  waiting_for_completion, Event, process_event_in_state, is_completed, watch,
  wait_for_pod_recreation_and_completion,
}
use beekeeper.Pods.Stages.{
  First, deletes, adds, runs, verdict, ends, deletion_step, creation_step, running_step,
  completion_step, Judged,
}

module _ {A : Type 0} (test : A → Bool) where
  First-hit :
      (x y : A) (xs rest : List A)
      → test x ≡ true
      → First test (x ∷ xs) y rest
      → (x ≡ y) × (xs ≡ rest)
  First-hit x y xs rest t ([], e, a, u) = (cc, cc)
  First-hit x y xs rest t (z ∷ before, e, a, u) =
      let same : x ≡ z = cc in let f = rw (← same) at a.0 in cc

  First-miss :
      (x y : A) (xs rest : List A)
      → test x ≡ false
      → First test (x ∷ xs) y rest
      → First test xs y rest
  First-miss x y xs rest t ([], e, a, u) =
      let same : x ≡ y = cc in let f = rw (← same) at u in absurd (ground arith)
  First-miss x y xs rest t (z ∷ before, e, a, u) = (before, cc, a.1, u)

  First-cons :
      (x y : A) (xs rest : List A)
      → test x ≡ false
      → First test xs y rest
      → First test (x ∷ xs) y rest
  First-cons x y xs rest t (before, e, a, u) = (x ∷ before, rw e refl, (t, a), u)

module _ (name : String) where
  watch_next :
      (s n : PodRecreationState) (x : Event) (events : List Event)
      → process_event_in_state x s name ≡ ok n
      → is_completed n ≡ false
      → watch name s (x ∷ events) ≡ watch name n events
  unfolding watch
  watch_next s n x events p c = rw (watch, p, c) refl

  -- One stage: the events are skipped up to the first that passes the test.
  stage_iff :
      (s t : PodRecreationState) (test : Event → Bool)
      → is_completed s ≡ false
      → is_completed t ≡ false
      → ((e : Event) → process_event_in_state e s name ≡ ok (if test e then t else s))
      → (events : List Event)
      → (watch name s events ≡ ok tt) ↔ (
          (e : Event) × (rest : List Event) × First test events e rest
          × (watch name t rest ≡ ok tt))
  unfolding watch
  stage_iff s t test cs ct step [] =
      ((λ h. cc), (λ (e, rest, (before, q, a, u), w). absurd (no_split e rest before q)))
    where
      no_split : (e : Event) (rest before : List Event) → [] ≡ before ++ e ∷ rest → ⊥
      no_split e rest [] q = cc
      no_split e rest (x ∷ xs) q = cc
  stage_iff s t test cs ct step (x ∷ events) =
      let (f, g) = stage_iff s t test cs ct step events in
      elim (Bool-cases (test x)) [
        | inl hit ↦ rw (watch_next s t x events (step x ∙ rw hit refl) ct) (
          (λ h. (x, events, ([], refl, tt, hit), h)),
          (λ (e, rest, first, w).
              let (_, same) = First-hit test x e events rest hit first in rw same w),
        )
        | inr miss ↦ rw (watch_next s s x events (step x ∙ rw miss refl) cs) (
          (λ h.
              let (e, rest, first, w) = f h in
              (e, rest, First-cons test x e events rest miss first, w)),
          (λ (e, rest, first, w). g (e, rest, First-miss test x e events rest miss first, w)),
        )
      ]

  -- The last stage: the first verdict is that the container has completed.
  last_iff :
      (events : List Event)
      → (watch name waiting_for_completion events ≡ ok tt) ↔ (
          (e : Event) × (rest : List Event) × First (ends name) events e rest
          × (verdict name e ≡ some true))
  unfolding watch Judged
  last_iff [] = ((λ h. cc), (λ (e, rest, (before, q, a, u), w). absurd (no_split e rest before q)))
    where
      no_split : (e : Event) (rest before : List Event) → [] ≡ before ++ e ∷ rest → ⊥
      no_split e rest [] q = cc
      no_split e rest (x ∷ xs) q = cc
  last_iff (x ∷ events) = judged (verdict name x) refl (completion_step name x) (last_iff events)
    where
      Last : List Event → Type 0
      Last es =
          (e : Event) × (rest : List Event) × First (ends name) es e rest
          × (verdict name e ≡ some true)

      judged :
          (o : Option Bool)
          → verdict name x ≡ o
          → Judged name o (process_event_in_state x waiting_for_completion name)
          → (watch name waiting_for_completion events ≡ ok tt) ↔ Last events
          → (watch name waiting_for_completion (x ∷ events) ≡ ok tt) ↔ Last (x ∷ events)
      judged none v p (f, g) =
          let miss : ends name x ≡ false = rw (ends, v) refl in
          rw (watch_next waiting_for_completion waiting_for_completion x events p refl) (
            (λ h.
                let (e, rest, first, w) = f h in
                (e, rest, First-cons (ends name) x e events rest miss first, w)),
            (λ (e, rest, first, w).
                g (e, rest, First-miss (ends name) x e events rest miss first, w)),
          )
      judged (some true) v p (f, g) =
          let hit : ends name x ≡ true = rw (ends, v) refl in
          rw (watch, p) ((λ h. (x, events, ([], refl, tt, hit), v)), (λ h. refl))
      judged (some false) v (code, p) (f, g) =
          let hit : ends name x ≡ true = rw (ends, v) refl in
          rw (watch, p)
            (
              (λ h. cc),
              (λ (e, rest, first, w).
                  let (same, _) = First-hit (ends name) x e events rest hit first in
                  let w' : verdict name x ≡ some true = rw same w in
                  absurd (ground (arith, v, w'))),
            )

  -- The first event that passes the test has the property, with the events after it.
  abbrev pub Stage : (Event → Bool) → (Event → List Event → Type 0) → List Event → Type 0
  Stage test P events = (e : Event) × (rest : List Event) × First test events e rest × P e rest

  -- The pod is deleted, then added, then its container runs, and then the first verdict is good.
  abbrev pub IsRecreated : List Event → Type 0
  IsRecreated = Stage deletes (λ _ created.
      Stage adds
        (λ _ running.
          Stage (runs name)
            (λ _ ending. Stage (ends name) (λ e _. verdict name e ≡ some true) ending) running)
        created)

  -- The wait for a pod's recreation and completion ends well exactly when, before the deadline, the
  -- pod is deleted, after that added, after that seen with its container running, and after that the
  -- first status that ends the container says that it has completed; the first event of each kind
  -- counts.
  pub wait_for_pod-ok_iff :
      (events : List Event)
      → (wait_for_pod_recreation_and_completion name events ≡ ok tt) ↔ IsRecreated events
  unfolding wait_for_pod_recreation_and_completion
  wait_for_pod-ok_iff events =
      deep
        (stage_iff waiting_for_deletion waiting_for_creation deletes refl refl (deletion_step name)
          events)
        (λ a.
          deep
            (stage_iff waiting_for_creation waiting_for_running adds refl refl (creation_step name)
              a)
            (λ b.
              deep
                (stage_iff waiting_for_running waiting_for_completion (runs name) refl refl
                  (running_step name) b)
                (λ c. last_iff c)))
    where
      deep :
          {W : Type 0} {test : Event → Bool} {es : List Event} {Q : List Event → Type 0}
          {R : List Event → Type 0}
          → W ↔ ((e : Event) × (rest : List Event) × First test es e rest × Q rest)
          → ((rest : List Event) → Q rest ↔ R rest)
          → W ↔ Stage test (λ _ rest. R rest) es
      deep (f, g) next = (
        (λ h. let (e, rest, first, w) = f h in (e, rest, first, (next rest).0 w)),
        (λ (e, rest, first, w). g (e, rest, first, (next rest).1 w)),
      )
