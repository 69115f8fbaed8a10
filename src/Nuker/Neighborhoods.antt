-- ===== src/Nuker/Neighborhoods.antt =====
-- The neighborhoods that a run of pkg/nuker/nuker.go gives to the stateful sets.
use beekeeper.Common.{
  ℕ, ◌≡◌, refl, ◌≢◌, ◌⊎◌, inl, inr, Bool, false, Option, none, some, List, [], ◌∷◌, String, str_eq,
  Bool-cases,
}
use beekeeper.Common.Outcome.{Outcome, ok, err, panic}
use beekeeper.Common.Dict.{Dict}
use beekeeper.Random.Defs.{Source}
use beekeeper.Nuker.Update.{StatefulSet, Kube}
use beekeeper.Nuker.Run.{RunError, Progress, run, find_stateful_sets}
use beekeeper.Nuker.Given.{nothing, IsFair, run_each-IsFair}

module _ {Probe Settings : Type 0} (source : ℕ → Source) (fuel : ℕ) (use_random : Bool)
    (status : String → Option ℕ) (controlling : String → Option (StatefulSet Probe Settings))
    (order : Dict (StatefulSet Probe Settings) → Dict (StatefulSet Probe Settings))
    (kube : String → Kube) (attempts : ℕ) (update_args : List String) (image : String) where
  -- A run fails before it comes to a set, or it goes through the sets of the nodes in the order of
  -- the range over them.
  abbrev pub IsRun :
      Option (List String)
      → List String
      → Outcome RunError (Unit {0}) × Progress Probe Settings
      → Type 0
  IsRun nodes restart_args (r, p) =
      ((r ≢ ok tt) × (p.sets ≡ []) × (p.drawn.0 ≡ []))
      ⊎ ((names : List String) × (all : Dict (StatefulSet Probe Settings)) × (nodes ≡ some names)
          × (find_stateful_sets controlling names [] ≡ ok all)
          × IsFair source fuel use_random names status kube attempts update_args restart_args image
              all [] (order all) (r, p))

  -- However a run of the nuker ends, it either has come to no set, or it has gone through the first
  -- of the sets of its nodes in the order of the range over them, and through all if it ends without
  -- an error. The cluster then holds what the update and the rollback make of each set that has
  -- replicas, with the arguments of the restart or, if random neighborhoods are asked for, the node's
  -- radius is not 0 and its range is not used up, with one more argument for the neighborhood of a
  -- number that the generator gives; the numbers in use differ from one another.
  pub run-IsFair :
      (namespace : String) (nodes : Option (List String)) (restart_args : List String)
      → IsRun nodes restart_args (
          run source fuel use_random status controlling order kube attempts update_args image
            namespace nodes restart_args)
  unfolding run
  run-IsFair namespace nodes restart_args = by_nodes nodes restart_args
    where
      by_sets :
          (names : List String) (arg : String) (args : List String)
          → str_eq namespace "" ≡ false
          → (r : Outcome RunError (Dict (StatefulSet Probe Settings)))
          → find_stateful_sets controlling names [] ≡ r
          → IsRun (some names) (arg ∷ args) (
              run source fuel use_random status controlling order kube attempts update_args image
                namespace
                (some names)
                (arg ∷ args))
      by_sets names arg args e (err x) q = rw (run, e, q) (inl ((λ z. cc), refl, refl))
      by_sets names arg args e panic q = rw (run, e, q) (inl ((λ z. cc), refl, refl))
      by_sets names arg args e (ok []) q = rw (run, e, q) (inl ((λ z. cc), refl, refl))
      by_sets names arg args e (ok (s ∷ ss)) q =
          rw (run, e, q)
            (inr (
              names,
              s ∷ ss,
              refl,
              q,
              run_each-IsFair source fuel use_random names status kube attempts update_args
                  (arg ∷ args) image (s ∷ ss) (order (s ∷ ss)) []
                  (record { drawn = ([], 0); sets = s ∷ ss }) nothing tt,
            ))

      by_nodes :
          (nodes : Option (List String)) (restart_args : List String)
          → IsRun nodes restart_args (
              run source fuel use_random status controlling order kube attempts update_args image
                namespace nodes restart_args)
      by_nodes nodes [] = elim (Bool-cases (str_eq namespace "")) [
        | inl e ↦ rw (run, e) (inl ((λ z. cc), refl, refl))
        | inr e ↦ rw (run, e) (inl ((λ z. cc), refl, refl))
      ]
      by_nodes none (arg ∷ args) = elim (Bool-cases (str_eq namespace "")) [
        | inl e ↦ rw (run, e) (inl ((λ z. cc), refl, refl))
        | inr e ↦ rw (run, e) (inl ((λ z. cc), refl, refl))
      ]
      by_nodes (some names) (arg ∷ args) = elim (Bool-cases (str_eq namespace "")) [
        | inl e ↦ rw (run, e) (inl ((λ z. cc), refl, refl))
        | inr e ↦ by_sets names arg args e (find_stateful_sets controlling names []) refl
      ]
