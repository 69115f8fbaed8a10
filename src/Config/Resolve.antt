-- ===== src/Config/Resolve.antt =====
-- What a profile stands for: itself with each nil field taken from what its parent stands for.
use beekeeper.Common.{
  ℕ, zero, suc, ◌≡◌, refl, ◌≢◌, inl, inr, some, arith, String, str_eq, eq_iff, ap, ◌∙◌, Bool-cases,
}
use mathlib.Core.Path.{subst, subst₂}
use beekeeper.Common.Dict.{Dict, lookup, insert, lookup-insert}
use beekeeper.Config.Profiles.{Profile, inherit}

module _ {V : Type 0} (configs : Dict (Profile V)) where
  -- `name` stands for the profile, at `n` steps below the root of its chain of parents.
  pub data Resolves : ℕ → String → Profile V → Type 0 where
    root :
        (name : String) (v : Profile V)
        → lookup name configs ≡ some v
        → v.parent_name ≡ ""
        → Resolves zero name v
    child :
        (n : ℕ) (name : String) (v p : Profile V)
        → lookup name configs ≡ some v
        → v.parent_name ≢ ""
        → Resolves n v.parent_name p
        → Resolves (suc n) name (inherit p v)

  same_profile :
      (name : String) {v w : Profile V}
      → lookup name configs ≡ some v
      → lookup name configs ≡ some w
      → v ≡ w
  same_profile name l l' = cc

  -- The chain of parents of a name is one chain.
  pub Resolves-unique :
      {m n : ℕ} {name : String} {a b : Profile V}
      → Resolves m name a
      → Resolves n name b
      → (m ≡ n) × (a ≡ b)
  Resolves-unique (root _ v l r) (root _ w l' r') = (refl, same_profile _ l l')
  Resolves-unique (root _ v l r) (child n _ w p l' ne h) =
      absurd (ne (ap (λ (x : Profile V). x.parent_name) (same_profile _ l' l) ∙ r))
  Resolves-unique (child n _ w p l' ne h) (root _ v l r) =
      absurd (ne (ap (λ (x : Profile V). x.parent_name) (same_profile _ l' l) ∙ r))
  Resolves-unique (child m _ v p l ne h) (child n _ w q l' ne' h') =
      let e : w ≡ v = same_profile _ l' l in
      let (k, same) =
        Resolves-unique h
          (subst (λ s. Resolves n s q) (ap (λ (x : Profile V). x.parent_name) e) h') in
      (ap suc k, cc)

  -- A name with no entry stands for nothing.
  pub Resolves-lookup :
      {n : ℕ} {name : String} {a : Profile V}
      → Resolves n name a
      → (v : Profile V) × (lookup name configs ≡ some v)
  Resolves-lookup (root _ v l r) = (v, l)
  Resolves-lookup (child n _ v p l ne h) = (v, l)

  -- What `mergedConfigs` holds so far is right.
  abbrev pub IsSound : Dict (Profile V) → Type 0
  IsSound merged =
      (name : String) (c : Profile V) → lookup name merged ≡ some c → (n : ℕ) × Resolves n name c

  -- `merged` holds all that `before` held, with the same value.
  abbrev pub Extends : Dict (Profile V) → Dict (Profile V) → Type 0
  Extends before merged =
      (name : String) (c : Profile V) → lookup name before ≡ some c → lookup name merged ≡ some c

  pub IsSound-insert :
      (name : String) (c : Profile V) (m : Dict (Profile V)) (n : ℕ)
      → IsSound m
      → Resolves n name c
      → IsSound (insert name c m)
  IsSound-insert name c m n sound res x d l = elim (Bool-cases (str_eq name x)) [
    | inl e ↦ (
      n,
      subst₂ (λ a b. Resolves n a b) ((eq_iff name x).0 e) (cc (lookup-insert name x c m, e)) res,
    )
    | inr e ↦ sound x d (ground (arith, lookup-insert name x c m))
  ]
