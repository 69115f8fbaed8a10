-- ===== src/Checks/Configured.antt =====
-- Which check of `config.Checks` pkg/check/runner.go finds for a name.
use beekeeper.Common.{
  ◌≡◌, refl, inl, inr, true, none, some, List, [], ◌∷◌, In, arith, Bool-cases, ap,
}
use mathlib.Core.Path.{subst}
use beekeeper.Checks.Runner.{Text, Check, same, find_check}

same-eq : (s t : Text) → same s t ≡ true → s ≡ t
unfolding same
same-eq [] [] h = refl
same-eq [] (d ∷ t) h = cc
same-eq (c ∷ s) [] h = cc
same-eq (c ∷ s) (d ∷ t) h =
    let e : c ≡ d = ground arith in let f : s ≡ t = same-eq s t (ground arith) in cc

same_refl : (s : Text) → same s s ≡ true
unfolding same
same_refl [] = refl
same_refl (c ∷ s) = ground (arith, same_refl s)

-- A check that is found is configured under the name.
pub find_check-In :
    (name : Text) (checks : List (Text × Check)) (c : Check)
    → find_check name checks ≡ some c
    → In (name, c) checks
unfolding find_check
find_check-In name [] c h = cc
find_check-In name ((k, d) ∷ checks) c h = elim (Bool-cases (same k name)) [
  | inl e ↦
      let h' : some d ≡ some c = rw (find_check, e) at h in
      let f : k ≡ name = same-eq k name e in let g : d ≡ c = cc in inl cc
  | inr e ↦ inr (find_check-In name checks c (rw (find_check, e) at h))
]

-- If none is found, none is configured under the name.
pub find_check-none :
    (name : Text) (checks : List (Text × Check))
    → find_check name checks ≡ none
    → (c : Check) → ¬ In (name, c) checks
unfolding find_check
find_check-none name [] h c i = i
find_check-none name ((k, d) ∷ checks) h c i = elim (Bool-cases (same k name)) [
  | inl e ↦ let h' : some d ≡ none = rw (find_check, e) at h in cc
  | inr e ↦ elim i [
    | inr j ↦ find_check-none name checks (rw (find_check, e) at h) c j
    | inl q ↦
        let f : same k name ≡ true =
          subst (λ x. same x name ≡ true) (ap (λ p. p.0) q) (same_refl name) in
        cc
  ]
]
