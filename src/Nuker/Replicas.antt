-- ===== src/Nuker/Replicas.antt =====
-- Which stateful sets pkg/nuker/nuker.go leaves alone, and the first pod of the others.
use beekeeper.Common.{
  ℕ, zero, suc, ◌≡◌, refl, ◌⊎◌, inl, inr, true, false, Option, none, some, List, ◌∷◌, String,
}
use beekeeper.Setup.Names.{numbered}
use beekeeper.Nuker.Update.{StatefulSet}
use beekeeper.Nuker.Sets.{is_idle}
use beekeeper.Nuker.Run.{pods_from, get_pod_names}

module _ {Probe Settings : Type 0} (ss : StatefulSet Probe Settings) where
  pub is_idle-replicas : is_idle ss ≡ true → (ss.replicas ≡ none) ⊎ (ss.replicas ≡ some 0)
  unfolding is_idle
  is_idle-replicas h = by_replicas ss.replicas refl
    where
      by_replicas : (o : Option ℕ) → ss.replicas ≡ o → (ss.replicas ≡ none) ⊎ (ss.replicas ≡ some 0)
      by_replicas none e = inl e
      by_replicas (some zero) e = inr e
      by_replicas (some (suc n)) e = let h' = rw (is_idle, e) at h in cc

  -- The pods of a set with replicas start with that of number 0.
  pub pods-replicas :
      (first : String) (others : List String)
      → is_idle ss ≡ false
      → get_pod_names ss ≡ first ∷ others
      → (n : ℕ) × (ss.replicas ≡ some (suc n)) × (first ≡ numbered ss.name 0)
  unfolding is_idle get_pod_names
  pods-replicas first others i q = by_replicas ss.replicas refl
    where
      by_replicas :
          (o : Option ℕ)
          → ss.replicas ≡ o
          → (n : ℕ) × (ss.replicas ≡ some (suc n)) × (first ≡ numbered ss.name 0)
      by_replicas none e = let i' = rw (is_idle, e) at i in cc
      by_replicas (some zero) e = let i' = rw (is_idle, e) at i in cc
      by_replicas (some (suc n)) e =
          let q' : pods_from ss.name 0 (suc n) ≡ first ∷ others = rw (get_pod_names, e) at q in
          (n, e, cc)
