-- ===== src/Nuker/Numbers.antt =====
-- The arguments that pkg/nuker/neighborhood.go gives to a stateful set.
use beekeeper.Common.{
  ℕ, ◌≡◌, refl, ◌⊎◌, inl, inr, Bool, true, false, Option, none, some, List, [], ◌∷◌, ◌++◌, ◌==◌,
  String, Bool-cases, ◌^◌,
}
use beekeeper.Common.Int.{ℤ, pos, ◌-ℤ◌, wrap64}
use beekeeper.Common.Outcome.{Outcome, ok, err, panic}
use beekeeper.Random.Defs.{
  Generator, Source, RandomError, unique_number_exhausted, invalid_range, out_of_draws, get_random,
}
use beekeeper.Random.Unique.{IsDistinct, get_random-IsDistinct}
use beekeeper.Nuker.Run.{RunError, neighborhood_arg, has_node, Drawn, get_args}

module _ (source : ℕ → Source) (fuel : ℕ) (use_random : Bool) (nodes : List String)
    (status : String → Option ℕ) where
  abbrev pub get : String → List String → Drawn → Outcome RunError (List String) × Drawn
  get = get_args source fuel use_random nodes status

  -- The answer of the unique generator to a call for a number of a radius, from 0 to 2 to the radius
  -- less 1 as an int64.
  abbrev pub number_of : ℕ → Drawn → Outcome RandomError (ℤ × Generator)
  number_of radius (used, calls) =
      get_random (source calls) fuel 0 (pos 0) (wrap64 (wrap64 (pos (2 ^ radius)) -ℤ pos 1))
        (record { unique = true; used = used })

  -- Arguments are those of the restart if no random neighborhoods are asked for, the radius of the
  -- node is 0 or its range is used up; and else they have one more, for a number that the generator
  -- gives and that no set has so far.
  abbrev pub IsGiven : String → List String → Drawn → List String → List ℤ → Type 0
  IsGiven name restart_args d args used' =
      ((args ≡ restart_args)
        × (used' ≡ d.0)
        × ((use_random ≡ false)
            ⊎ ((radius : ℕ) × (status name ≡ some radius)
                × (((radius == 0) ≡ true) ⊎ (number_of radius d ≡ err unique_number_exhausted)))))
      ⊎ ((use_random ≡ true)
          × ((radius : ℕ) × (val : ℤ) × (g : Generator) × (status name ≡ some radius)
              × ((radius == 0) ≡ false)
              × (number_of radius d ≡ ok (val, g))
              × (args ≡ restart_args ++ neighborhood_arg val ∷ [])
              × (used' ≡ val ∷ d.0)
              × IsDistinct used'))

  pub IsGiven-IsDistinct :
      (name : String) (restart_args : List String) (d : Drawn) (args : List String) (used' : List ℤ)
      → IsDistinct d.0
      → IsGiven name restart_args d args used'
      → IsDistinct used'
  IsGiven-IsDistinct name restart_args d args used' h (inl (_, e, _)) = rw e h
  IsGiven-IsDistinct name restart_args d args used' h (inr (_, g)) = g.8

  -- A call gives arguments, or ends the run with the numbers as they were.
  abbrev pub IsGet : String → List String → Drawn → Outcome RunError (List String) × Drawn → Type 0
  IsGet name restart_args d (ok args, d') = IsGiven name restart_args d args d'.0
  IsGet name restart_args d (err e, d') = d'.0 ≡ d.0
  IsGet name restart_args d (panic, d') = d'.0 ≡ d.0

  pub get_args-IsGet :
      (name : String) (restart_args : List String) (used : List ℤ) (calls : ℕ)
      → IsDistinct used
      → IsGet name restart_args (used, calls) (get name restart_args (used, calls))
  unfolding get_args
  get_args-IsGet name restart_args used calls d = elim (Bool-cases use_random) [
    | inr u ↦ rw (get_args, u) (inl (refl, refl, inl refl))
    | inl u ↦ elim (Bool-cases (has_node name nodes)) [
      | inr n ↦ rw (get_args, u, n) refl
      | inl n ↦ by_status u n (status name) refl
    ]
  ]
    where
      Goal : Type 0
      Goal = IsGet name restart_args (used, calls) (get name restart_args (used, calls))

      by_draw :
          use_random ≡ true
          → has_node name nodes ≡ true
          → (radius : ℕ) → status name ≡ some radius
          → (radius == 0) ≡ false
          → (r : Outcome RandomError (ℤ × Generator))
          → get_random
              (source calls)
              fuel
              0
              (pos 0)
              (wrap64 (wrap64 (pos (2 ^ radius)) -ℤ pos 1))
              (record { unique = true; used = used })
            ≡ r
          → Goal
      by_draw u n radius s z (ok (val, g)) q =
          let (fresh, same, distinct) =
            get_random-IsDistinct (source calls) fuel 0 (pos 0)
              (wrap64 (wrap64 (pos (2 ^ radius)) -ℤ pos 1)) (record { unique = true; used = used })
              g val refl d q in
          rw (get_args, u, n, s, z, q) (inr (refl, (radius, val, g, s, z, q, refl, same, distinct)))
      by_draw u n radius s z panic q = rw (get_args, u, n, s, z, q) refl
      by_draw u n radius s z (err unique_number_exhausted) q =
          rw (get_args, u, n, s, z, q) (inl (refl, refl, inr (radius, s, inr q)))
      by_draw u n radius s z (err invalid_range) q = rw (get_args, u, n, s, z, q) refl
      by_draw u n radius s z (err out_of_draws) q = rw (get_args, u, n, s, z, q) refl

      by_status :
          use_random ≡ true → has_node name nodes ≡ true → (o : Option ℕ) → status name ≡ o → Goal
      by_status u n none s = rw (get_args, u, n, s) refl
      by_status u n (some radius) s = elim (Bool-cases (radius == 0)) [
        | inl z ↦ rw (get_args, u, n, s, z) (inl (refl, refl, inr (radius, s, inl z)))
        | inr z ↦
            by_draw u n radius s z
              (get_random (source calls) fuel 0 (pos 0)
                (wrap64 (wrap64 (pos (2 ^ radius)) -ℤ pos 1))
                (record { unique = true; used = used }))
              refl
      ]
