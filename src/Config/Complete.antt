-- ===== src/Config/Complete.antt =====
-- When every profile stands for something, `mergeConfigs` raises no error.
use beekeeper.Common.{
  ℕ, zero, suc, ◌<◌, ◌≡◌, refl, ◌≢◌, inl, inr, true, some, List, [], ◌∷◌, arith, String, str_eq,
  eq_iff, Bool-cases, Option-cases, In, ◌∙◌,
}
use mathlib.Core.Path.{subst, sym}
use beekeeper.Common.Outcome.{Outcome, ok, err, panic}
use beekeeper.Common.Dict.{Dict, lookup}
use beekeeper.Config.Profiles.{
  Profile, MergeError, out_of_fuel, circular, missing, inherit, is_visited, Merging, finish,
  merge_step, merge_parent, merge_names,
}
use beekeeper.Config.Resolve.{Resolves, root, child, Resolves-unique, IsSound}
use beekeeper.Config.Sound.{Caller, merge_parent-Merged}

module _ {V : Type 0} (configs : Dict (Profile V)) where
  abbrev pub OkOrFuel {ℓ} : {A : Type ℓ} → Outcome MergeError A → Type 0
  OkOrFuel (ok a) = Unit
  OkOrFuel (err out_of_fuel) = Unit
  OkOrFuel (err (circular x)) = ⊥
  OkOrFuel (err (missing x)) = ⊥
  OkOrFuel panic = ⊥

  -- Every name that is being visited lies deeper than `n` below its root.
  abbrev pub IsAbove : ℕ → List String → Type 0
  IsAbove n visited =
      (x : String)
      → is_visited x visited ≡ true
      → (k : ℕ) (p : Profile V) → Resolves configs k x p
      → n < k

  child_ok :
      (name : String) (v : Profile V) (r : Outcome MergeError (Profile V × Merging V))
      → OkOrFuel r
      → OkOrFuel (elim r [
        | ok (p, t) ↦ finish configs name (inherit p v) t
        | err e ↦ err e
        | panic ↦ panic
      ])
  unfolding finish
  child_ok name v (ok (p, t)) h = tt
  child_ok name v (err x) h = h
  child_ok name v panic h = h

  IsAbove-cons :
      (n : ℕ) (name : String) (c : Profile V) (visited : List String)
      → Resolves configs (suc n) name c
      → IsAbove (suc n) visited
      → IsAbove n (name ∷ visited)
  unfolding is_visited
  IsAbove-cons n name c visited res above x v k p res' = elim (Bool-cases (str_eq name x)) [
    | inl same ↦
        let d =
          Resolves-unique configs res
            (subst (λ y. Resolves configs k y p) (sym ((eq_iff name x).0 same)) res') in
        omega (arith, d.0)
    | inr other ↦ omega (arith, above x (rw (other, is_visited) at v) k p res')
  ]

  merge_step-ok :
      (parent : Caller configs) (name : String) (s : Merging V) (n : ℕ) (c v : Profile V)
      → Resolves configs n name c
      → IsAbove n s.visited
      → lookup name configs ≡ some v
      → (v.parent_name ≢ ""
          → OkOrFuel (parent v.parent_name (record s { visited = name ∷ s.visited })))
      → OkOrFuel (merge_step configs parent name s)
  unfolding merge_step finish
  merge_step-ok parent name s n c v res above l below = elim (Option-cases (lookup name s.merged)) [
    | inr (d, e) ↦ rw (e, merge_step) tt
    | inl f ↦ elim (Bool-cases (is_visited name s.visited)) [
      | inl e ↦ absurd (omega (arith, above name e n c res))
      | inr nv ↦ elim (Bool-cases (str_eq v.parent_name "")) [
        | inl e ↦ rw (f, nv, l, e, merge_step) tt
        | inr e ↦
            rw (f, nv, l, e, merge_step)
              (child_ok name v _ (below (λ r. ground (arith, eq_iff v.parent_name ""))))
      ]
    ]
  ]

  pub merge_parent-ok :
      (fuel : ℕ) (name : String) (s : Merging V) (n : ℕ) (c : Profile V)
      → Resolves configs n name c
      → IsAbove n s.visited
      → OkOrFuel (merge_parent configs fuel name s)
  unfolding merge_parent
  merge_parent-ok zero name s n c res above = tt
  merge_parent-ok (suc fuel) name s n c (root _ _ l r) above =
      merge_step-ok (merge_parent configs fuel) name s n c c (root name c l r) above l
        (λ ne. absurd (ne r))
  merge_parent-ok (suc fuel) name s n c (child m _ v p l ne res) above =
      merge_step-ok (merge_parent configs fuel) name s (suc m) (inherit p v) v
        (child m name v p l ne res) above l
        (λ _.
          merge_parent-ok fuel v.parent_name (record s { visited = name ∷ s.visited }) m p res
            (IsAbove-cons m name (inherit p v) s.visited (child m name v p l ne res) above))

  names_ok :
      (fuel : ℕ) (names : List String) (r : Outcome MergeError (Profile V × Merging V))
      → OkOrFuel r
      → ((c : Profile V) (t : Merging V)
          → r ≡ ok (c, t)
          → OkOrFuel (merge_names configs fuel names t))
      → OkOrFuel
          (elim r [ ok (_, t) ↦ merge_names configs fuel names t | err e ↦ err e | panic ↦ panic ])
  names_ok fuel names (ok (c, t)) h rest = rest c t refl
  names_ok fuel names (err x) h rest = h
  names_ok fuel names panic h rest = h

  pub merge_names-ok :
      (fuel : ℕ) (names : List String) (s : Merging V)
      → IsSound configs s.merged
      → s.visited ≡ []
      → ((name : String) → In name names → (n : ℕ) × (c : Profile V) × Resolves configs n name c)
      → OkOrFuel (merge_names configs fuel names s)
  unfolding merge_names is_visited
  merge_names-ok fuel [] s sound none_visited all = tt
  merge_names-ok fuel (name ∷ names) s sound none_visited all =
      let (n, c, res) = all name (inl refl) in
      names_ok fuel names _
        (merge_parent-ok fuel name s n c res (rw none_visited (λ x v k p r. cc)))
        λ d t e.
          let m = merge_parent-Merged configs fuel name s d t sound e in
          merge_names-ok fuel names t m.sound (m.restored ∙ none_visited) (λ x i. all x (inr i))
