-- ===== src/Nuker/Nuked.antt =====
-- What `NukeByStatefulSets` of pkg/nuker/nuker.go has done to the cluster when it ends well.
use beekeeper.Common.{
  ℕ, ◌≡◌, refl, inl, inr, ◌⊎◌, true, false, Option, none, some, List, [], ◌∷◌, arith, if◌then◌else◌,
  String, str_eq, eq_iff, Bool-cases, ◌∙◌, sym,
}
use beekeeper.Common.Outcome.{Outcome, ok, err, panic}
use beekeeper.Common.Dict.{Dict, lookup, insert, contains, lookup-insert}
use beekeeper.Nuker.Update.{StatefulSet, NukeError, Kube, update_and_rollback}
use beekeeper.Nuker.Order.{NoRepeat, collect-IsOrdered}
use beekeeper.Nuker.Sets.{
  Found, found, Collected, collect, occurs, is_idle, nuke_each, NukeSetsError,
  nuke_by_stateful_sets, collect-lookup,
}

not_first :
    (name n : String) (names : List String)
    → occurs name (n ∷ names) ≡ false
    → (str_eq n name ≡ false) × (occurs name names ≡ false)
not_first name n names h = ground arith

module _ {Probe Settings : Type 0} where
  module _ (kube : String → Kube) (attempts : ℕ) (update_args restart_args : List String)
      (image : String) where
    -- A set after its update and rollback; one without replicas is skipped.
    abbrev pub nuked : String → StatefulSet Probe Settings → StatefulSet Probe Settings
    nuked name ss =
        if is_idle ss
        then ss
        else (update_and_rollback (kube name) attempts update_args restart_args image ss ss).1

    -- The set was updated and rolled back without an error, or skipped.
    abbrev pub IsDone : String → StatefulSet Probe Settings → StatefulSet Probe Settings → Type 0
    IsDone name ss after =
        (after ≡ nuked name ss)
        × (is_idle ss ≡ false
            → (update_and_rollback (kube name) attempts update_args restart_args image ss ss).0
              ≡ ok tt)

    abbrev run :
        List String
        → Dict (StatefulSet Probe Settings)
        → Outcome NukeSetsError (Unit {0}) × Dict (StatefulSet Probe Settings)
    run names sets = nuke_each kube attempts update_args restart_args image names sets

    abbrev one :
        String
        → StatefulSet Probe Settings
        → Outcome NukeError (Unit {0}) × StatefulSet Probe Settings
    one name ss = update_and_rollback (kube name) attempts update_args restart_args image ss ss

    -- The first set is there, and was skipped or done without an error, before the others.
    First : String → List String → Dict (StatefulSet Probe Settings) → Type 0
    First n names sets =
        (ss : StatefulSet Probe Settings) × (lookup n sets ≡ some ss)
        × (((is_idle ss ≡ true) × (run (n ∷ names) sets ≡ run names sets))
            ⊎ ((is_idle ss ≡ false)
                × ((one n ss).0 ≡ ok tt)
                × (run (n ∷ names) sets ≡ run names (insert n (one n ss).1 sets))))

    run-First :
        (n : String) (names : List String) (sets : Dict (StatefulSet Probe Settings))
        → (run (n ∷ names) sets).0 ≡ ok tt
        → First n names sets
    unfolding nuke_each First
    run-First n names sets h = step (lookup n sets) refl
      where
        ended :
            (ss : StatefulSet Probe Settings)
            → lookup n sets ≡ some ss
            → is_idle ss ≡ false
            → (r : Outcome NukeError (Unit {0})) → (one n ss).0 ≡ r
            → First n names sets
        ended ss e i (ok tt) f = (ss, e, inr (i, f, rw (nuke_each, e, i, f) refl))
        ended ss e i (err x) f = let h' = rw (nuke_each, e, i, f) at h in cc
        ended ss e i panic f = let h' = rw (nuke_each, e, i, f) at h in cc

        step : (o : Option (StatefulSet Probe Settings)) → lookup n sets ≡ o → First n names sets
        step none e = let h' = rw (nuke_each, e) at h in cc
        step (some ss) e = elim (Bool-cases (is_idle ss)) [
          | inl i ↦ (ss, e, inl (i, rw (nuke_each, e, i) refl))
          | inr i ↦ ended ss e i (one n ss).0 refl
        ]

    run_keeps :
        (name : String) (names : List String) (sets : Dict (StatefulSet Probe Settings))
        → occurs name names ≡ false
        → (run names sets).0 ≡ ok tt
        → lookup name (run names sets).1 ≡ lookup name sets
    unfolding nuke_each First
    run_keeps name [] sets x h = refl
    run_keeps name (n ∷ names) sets x h =
        let (d, y) = not_first name n names x in
        after d (run-First n names sets h) (λ s g. run_keeps name names s y g)
      where
        after :
            str_eq n name ≡ false
            → First n names sets
            → ((s : Dict (StatefulSet Probe Settings))
                → (run names s).0 ≡ ok tt
                → lookup name (run names s).1 ≡ lookup name s)
            → lookup name (run (n ∷ names) sets).1 ≡ lookup name sets
        after d (ss, e, inl (i, q)) rest = rw q (rest sets (rw q at h))
        after d (ss, e, inr (i, f, q)) rest =
            rw q (rest (insert n (one n ss).1 sets) (rw q at h))
            ∙ lookup-insert n name (one n ss).1 sets
            ∙ rw d refl

    -- A set that was listed is done.
    Done : String → List String → Dict (StatefulSet Probe Settings) → Type 0
    Done name names sets =
        (ss : StatefulSet Probe Settings) × (new : StatefulSet Probe Settings) × (lookup name sets
          ≡ some ss)
        × (lookup name (run names sets).1 ≡ some new)
        × IsDone name ss new

    run-Done :
        (name : String) (names : List String) (sets : Dict (StatefulSet Probe Settings))
        → NoRepeat names
        → occurs name names ≡ true
        → (run names sets).0 ≡ ok tt
        → Done name names sets
    unfolding nuke_each First Done
    run-Done name [] sets r x h = cc
    run-Done name (n ∷ names) sets r x h = elim (Bool-cases (str_eq n name)) [
      | inl d ↦ here ((eq_iff n name).0 d) (run-First n names sets h)
      | inr d ↦ there d (run-First n names sets h) (λ s g. run-Done name names s r.1 (rw d at x) g)
    ]
      where
        here : n ≡ name → First n names sets → Done name (n ∷ names) sets
        here d (ss, e, inl (i, q)) = (
          ss,
          ss,
          rw⁻¹ d e,
          rw q (rw⁻¹ d (run_keeps n names sets r.0 (rw q at h) ∙ e)),
          (rw i refl, λ j. cc),
        )
        here d (ss, e, inr (i, f, q)) = (
          ss,
          (one n ss).1,
          rw⁻¹ d e,
          rw q (
              rw⁻¹ d (
                run_keeps n names (insert n (one n ss).1 sets) r.0 (rw q at h)
                ∙ lookup-insert n n (one n ss).1 sets
                ∙ rw ((eq_iff n n).1 refl) refl)),
          (rw (i, d) refl, λ j. rw⁻¹ d f),
        )

        there :
            str_eq n name ≡ false
            → First n names sets
            → ((s : Dict (StatefulSet Probe Settings))
                → (run names s).0 ≡ ok tt
                → Done name names s)
            → Done name (n ∷ names) sets
        there d (ss, e, inl (i, q)) rest = rw q (rest sets (rw q at h))
        there d (ss, e, inr (i, f, q)) rest =
            let (old, new, a, b, c) = rest (insert n (one n ss).1 sets) (rw q at h) in
            let inserted = lookup-insert n name (one n ss).1 sets in
            (old, new, sym (inserted ∙ rw d refl) ∙ a, rw q b, c)

    -- When NukeByStatefulSets ends without an error, each stateful set that the cluster has under a
    -- name of the list, named once or more, has gone through one update and rollback without an error
    -- and is what that leaves, or has no replicas and is as it was.
    pub nuke_by_stateful_sets-IsDone :
        (get : String → Found Probe Settings) (names : List String) (name : String)
        (ss : StatefulSet Probe Settings)
        → (let out = nuke_by_stateful_sets kube attempts update_args restart_args image get names in
            out.0 ≡ ok tt)
        → occurs name names ≡ true
        → get name ≡ found ss
        → (let out = nuke_by_stateful_sets kube attempts update_args restart_args image get names in
            (new : StatefulSet Probe Settings) × (lookup name out.1 ≡ some new)
            × IsDone name ss new)
    unfolding nuke_by_stateful_sets Done
    nuke_by_stateful_sets-IsDone get [] name ss h x e = cc
    nuke_by_stateful_sets-IsDone get (n ∷ names) name ss h x e =
        step (collect get (n ∷ names) ([], [])) refl
      where
        Result : Type 0
        Result =
            (new : StatefulSet Probe Settings) × (lookup name
                (nuke_by_stateful_sets kube attempts update_args restart_args image get
                  (n ∷ names)).1
              ≡ some new)
            × IsDone name ss new

        step :
            (c : Outcome NukeSetsError (Collected Probe Settings))
            → collect get (n ∷ names) ([], []) ≡ c
            → Result
        step (err y) q = let h' = rw (nuke_by_stateful_sets, q) at h in cc
        step panic q = let h' = rw (nuke_by_stateful_sets, q) at h in cc
        step (ok (sets, ordered)) q =
            let h' = rw (nuke_by_stateful_sets, q) at h in
            let (once, known) =
              collect-IsOrdered get (n ∷ names) [] [] (sets, ordered) (tt, λ m. refl) q in
            let there : lookup name sets ≡ some ss =
              collect-lookup get (n ∷ names) (sets, ordered) q name ∙ rw (x, e) refl in
            let (old, new, a, b, c) =
              run-Done name ordered sets once (known name ∙ rw (contains, there) refl) h' in
            let same : old ≡ ss = first_some (sym a ∙ there) in
            (new, rw (nuke_by_stateful_sets, q) b, rw⁻¹ same c)
          where
            first_some : {s t : StatefulSet Probe Settings} → some s ≡ some t → s ≡ t
            first_some p = cc
