-- ===== src/Config/Correct.antt =====
-- What `mergeConfigs` of pkg/config/config.go computes, and when it fails.
use beekeeper.Common.{ℕ, ◌≡◌, refl, ◌≢◌, ◌↔◌, some, [], ◌∷◌, arith, In, String, eq_iff}
use beekeeper.Common.Outcome.{Outcome, ok, err, panic}
use beekeeper.Common.Dict.{Dict, lookup, keys}
use beekeeper.Config.Profiles.{
  Profile, MergeError, out_of_fuel, circular, missing, Merging, merge_configs,
}
use beekeeper.Config.Resolve.{Resolves, Resolves-unique, Resolves-lookup, IsSound}
use beekeeper.Config.Sound.{merge_names-AllMerged}
use beekeeper.Config.Fuel.{start_ends}
use beekeeper.Config.Complete.{OkOrFuel, merge_names-ok}

module _ {V : Type 0} where
  lookup-keys :
      (name : String) (m : Dict (Profile V)) (v : Profile V)
      → lookup name m ≡ some v
      → In name (keys m)
  unfolding lookup
  lookup-keys name [] v l = cc
  lookup-keys name ((k, w) ∷ m) v l = ground (arith, lookup-keys name m v, eq_iff k name)

module _ {V : Type 0} (configs : Dict (Profile V)) where
  abbrev start : Merging V
  start = record { merged = []; visited = [] }

  start-IsSound : IsSound configs start.merged
  unfolding lookup
  start-IsSound name c l = cc

  finished :
      (r : Outcome MergeError (Merging V)) {out : Dict (Profile V)}
      → (elim r [ ok s ↦ ok s.merged | err e ↦ err e | panic ↦ panic ]) ≡ ok out
      → (s : Merging V) × (r ≡ ok s) × (s.merged ≡ out)
  finished (ok s) h = (s, refl, cc)
  finished (err e) h = cc
  finished panic h = cc

  -- When `mergeConfigs` succeeds, its result holds a name exactly when the name's chain of parents
  -- ends, and holds for it what the chain resolves to: each nil field taken from the parent.
  pub merge_configs-lookup :
      (out : Dict (Profile V))
      → merge_configs configs ≡ ok out
      → (name : String) (c : Profile V)
      → (lookup name out ≡ some c) ↔ ((n : ℕ) × Resolves configs n name c)
  unfolding merge_configs
  merge_configs-lookup out h name c =
      let (s, e, same) = finished _ h in
      let all = merge_names-AllMerged configs _ (keys configs) start s start-IsSound e in
      (
        (λ l. all.sound name c (rw same l)),
        (λ (n, res).
            let (v, l) = Resolves-lookup configs res in
            let (d, found) = all.present name (lookup-keys name configs v l) in
            let (m, res') = all.sound name d found in
            rw (← same, (Resolves-unique configs res res').1) found),
      )

  decided :
      (r : Outcome MergeError (Merging V))
      → OkOrFuel configs r
      → r ≢ err out_of_fuel
      → (out : Dict (Profile V)) × ((elim r [ ok s ↦ ok s.merged | err e ↦ err e | panic ↦ panic ])
          ≡ ok out)
  decided (ok s) h f = (s.merged, refl)
  decided (err out_of_fuel) h f = absurd (f refl)
  decided (err (circular x)) h f = absurd h
  decided (err (missing x)) h f = absurd h
  decided panic h f = absurd h

  -- `mergeConfigs` succeeds exactly when every profile's chain of parents ends: an error means a
  -- cycle or a parent that does not exist, and nothing else.
  pub merge_configs-succeeds_iff : ((out : Dict (Profile V)) × (merge_configs configs ≡ ok out)) ↔ (
      (name : String)
      → In name (keys configs)
      → (n : ℕ) × (c : Profile V) × Resolves configs n name c)
  unfolding merge_configs
  merge_configs-succeeds_iff = (
    (λ (out, h) name i.
        let (s, e, same) = finished _ h in
        let all = merge_names-AllMerged configs _ (keys configs) start s start-IsSound e in
        let (c, l) = all.present name i in let (n, res) = all.sound name c l in (n, c, res)),
    (λ all.
        decided _ (merge_names-ok configs _ (keys configs) start start-IsSound refl all)
          (start_ends configs (keys configs))),
  )

  ended :
      (r : Outcome MergeError (Merging V))
      → r ≢ err out_of_fuel
      → ((elim r [ ok s ↦ ok s.merged | err e ↦ err e | panic ↦ panic ]) ≢ err out_of_fuel)
  ended (ok s) h = λ e. cc
  ended (err x) h = λ e. h (cc)
  ended panic h = λ e. cc

  -- The recursion of `mergeConfigs` ends: the fuel of one step for each profile and one more is
  -- never used up.
  pub merge_configs-ne-out_of_fuel : merge_configs configs ≢ err out_of_fuel
  unfolding merge_configs
  merge_configs-ne-out_of_fuel = ended _ (start_ends configs (keys configs))
