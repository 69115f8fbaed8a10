-- ===== src/Config/Fuel.antt =====
-- The recursion of `mergeParent` ends: each call below another visits one more name of `configs`.
use beekeeper.Common.{
  ℕ, zero, suc, ◌+◌, ◌≤◌, ◌<◌, ◌≡◌, refl, ◌≢◌, inl, inr, false, some, List, [], ◌∷◌, arith, String,
  str_eq, eq_iff, if◌then◌else◌, Bool-cases, Option-cases, length,
}
use beekeeper.Common.Outcome.{Outcome, ok, err, panic}
use beekeeper.Common.Dict.{Dict, lookup}
use beekeeper.Config.Profiles.{
  Profile, MergeError, out_of_fuel, inherit, is_visited, Merging, finish, merge_step, merge_parent,
  merge_names,
}
use beekeeper.Config.Resolve.{IsSound}
use beekeeper.Config.Sound.{Caller, merge_parent-Merged}

module _ {V : Type 0} where
  -- The entries whose names are not visited.
  unvisited : List String → Dict (Profile V) → ℕ
  unvisited visited [] = 0
  unvisited visited ((k, v) ∷ m) = (if is_visited k visited then 0 else 1) + unvisited visited m

  unvisited-le-length :
      (visited : List String) (m : Dict (Profile V)) → unvisited visited m ≤ length m
  unfolding unvisited
  unvisited-le-length visited [] = omega arith
  unvisited-le-length visited ((k, v) ∷ m) = ground (arith, unvisited-le-length visited m)

  unvisited-cons-le :
      (name : String) (visited : List String) (m : Dict (Profile V))
      → unvisited (name ∷ visited) m ≤ unvisited visited m
  unfolding unvisited is_visited
  unvisited-cons-le name visited [] = omega arith
  unvisited-cons-le name visited ((k, v) ∷ m) = ground (arith, unvisited-cons-le name visited m)

  unvisited-cons-lt :
      (name : String) (visited : List String) (m : Dict (Profile V)) (v : Profile V)
      → is_visited name visited ≡ false
      → lookup name m ≡ some v
      → unvisited (name ∷ visited) m < unvisited visited m
  unfolding unvisited is_visited lookup
  unvisited-cons-lt name visited [] v nv l = cc
  unvisited-cons-lt name visited ((k, w) ∷ m) v nv l = ground (
    arith,
    unvisited-cons-lt name visited m v nv,
    unvisited-cons-le name visited m,
    eq_iff k name,
    eq_iff name k,
  )

module _ {V : Type 0} (configs : Dict (Profile V)) where
  abbrev Ends : Outcome MergeError (Profile V × Merging V) → Type 0
  Ends r = r ≢ err out_of_fuel

  step_to_parent :
      (name : String) (v : Profile V) (r : Outcome MergeError (Profile V × Merging V))
      → Ends r
      → Ends (elim r [
        | ok (p, t) ↦ finish configs name (inherit p v) t
        | err e ↦ err e
        | panic ↦ panic
      ])
  unfolding finish
  step_to_parent name v (ok (p, t)) h = λ e. cc
  step_to_parent name v (err x) h = h
  step_to_parent name v panic h = λ e. cc

  merge_step-Ends :
      (parent : Caller configs) (name : String) (s : Merging V)
      → ((v : Profile V)
          → is_visited name s.visited ≡ false
          → lookup name configs ≡ some v
          → Ends (parent v.parent_name (record s { visited = name ∷ s.visited })))
      → Ends (merge_step configs parent name s)
  unfolding merge_step finish
  merge_step-Ends parent name s below = elim (Option-cases (lookup name s.merged)) [
    | inr (d, e) ↦ rw (e, merge_step) (λ q. cc)
    | inl f ↦ elim (Bool-cases (is_visited name s.visited)) [
      | inl e ↦ rw (f, e, merge_step) (λ q. cc)
      | inr nv ↦ elim (Option-cases (lookup name configs)) [
        | inl e ↦ rw (f, nv, e, merge_step) (λ q. cc)
        | inr (v, l) ↦ elim (Bool-cases (str_eq v.parent_name "")) [
          | inl e ↦ rw (f, nv, l, e, merge_step) (λ q. cc)
          | inr e ↦ rw (f, nv, l, e, merge_step) (step_to_parent name v _ (below v nv l))
        ]
      ]
    ]
  ]

  merge_parent-Ends :
      (fuel : ℕ) (name : String) (s : Merging V)
      → unvisited s.visited configs < fuel
      → Ends (merge_parent configs fuel name s)
  unfolding merge_parent
  merge_parent-Ends zero name s h = absurd (omega arith)
  merge_parent-Ends (suc fuel) name s h =
      merge_step-Ends (merge_parent configs fuel) name s λ v nv l.
        merge_parent-Ends fuel v.parent_name (record s { visited = name ∷ s.visited })
          (omega (arith, unvisited-cons-lt name s.visited configs v nv l))

  names_ends :
      (fuel : ℕ) (names : List String) (r : Outcome MergeError (Profile V × Merging V))
      → r ≢ err out_of_fuel
      → ((c : Profile V) (t : Merging V)
          → r ≡ ok (c, t)
          → merge_names configs fuel names t ≢ err out_of_fuel)
      → (elim r [ ok (_, t) ↦ merge_names configs fuel names t | err e ↦ err e | panic ↦ panic ])
        ≢ err out_of_fuel
  names_ends fuel names (ok (c, t)) h rest = rest c t refl
  names_ends fuel names (err x) h rest = λ e. h (cc)
  names_ends fuel names panic h rest = λ e. cc

  merge_names-ne-out_of_fuel :
      (fuel : ℕ) (names : List String) (s : Merging V)
      → IsSound configs s.merged
      → unvisited s.visited configs < fuel
      → merge_names configs fuel names s ≢ err out_of_fuel
  unfolding merge_names
  merge_names-ne-out_of_fuel fuel [] s sound h = λ e. cc
  merge_names-ne-out_of_fuel fuel (name ∷ names) s sound h =
      names_ends fuel names _ (merge_parent-Ends fuel name s h) λ c t e.
        let m = merge_parent-Merged configs fuel name s c t sound e in
        merge_names-ne-out_of_fuel fuel names t m.sound (rw m.restored h)

  -- With a step for each name and one more, the recursion is never cut off.
  pub start_ends :
      (names : List String)
      → merge_names configs (length configs + 1) names (record { merged = []; visited = [] })
        ≢ err out_of_fuel
  unfolding lookup
  start_ends names =
      merge_names-ne-out_of_fuel (length configs + 1) names _ (λ x c l. cc)
        (omega (arith, unvisited-le-length [] configs))
