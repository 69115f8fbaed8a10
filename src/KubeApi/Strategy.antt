-- ===== src/KubeApi/Strategy.antt =====
-- The update strategy of pkg/k8s/statefulset/statefulset.go and its conversions.
use beekeeper.Common.{
  ℕ, if◌then◌else◌, ◌≡◌, refl, ◌↔◌, ◌⊎◌, inl, inr, true, false, Option, none, String, str_eq,
  eq_iff, Bool-cases, ap, sym, ◌∙◌,
}
use beekeeper.KubeApi.SetClient.{UpdateStrategy, on_delete, rolling, new_update_strategy, to_k8s}

-- A strategy that a spec may state: one of the two types, and a partition for a rolling one alone.
abbrev pub IsStrategy : UpdateStrategy → Type 0
IsStrategy u = (u.type ≡ rolling) ⊎ ((u.type ≡ on_delete) × (u.rolling_update_partition ≡ none))

differ : on_delete ≡ rolling → ⊥
differ e = let e' : false ≡ true = (eq_iff on_delete rolling).1 e in cc

-- The strategy with the fields that are read back.
read_back :
    (type : String) (partition : Option ℕ)
    → new_update_strategy (to_k8s (record { type = type; rolling_update_partition = partition }))
      ≡ (if str_eq type on_delete
          then record { type = on_delete; rolling_update_partition = none }
          else record { type = rolling; rolling_update_partition = partition })
unfolding new_update_strategy to_k8s
read_back type partition = elim (Bool-cases (str_eq type on_delete)) [
  | inl e ↦ rw (new_update_strategy, to_k8s, e) refl
  | inr e ↦ rw (new_update_strategy, to_k8s, e) refl
]

-- A strategy that is sent to Kubernetes is read back as it was exactly when its type is one of the
-- two and one on deletion has no partition.
pub new_update_strategy-to_k8s_iff :
    (u : UpdateStrategy) → (new_update_strategy (to_k8s u) ≡ u) ↔ IsStrategy u
new_update_strategy-to_k8s_iff u = elim (Bool-cases (str_eq u.type on_delete)) [
  | inl e ↦
      let t : u.type ≡ on_delete = (eq_iff u.type on_delete).0 e in
      let back = read_back u.type u.rolling_update_partition in
      let back' = rw e at back in
      (
        λ h. inr (t, ap (λ s. s.rolling_update_partition) (sym h ∙ back')),
        λ s. elim s [
          | inl r ↦ absurd (differ (sym t ∙ r))
          | inr (_, p) ↦
              back'
              ∙ ap (λ x. record { type = x; rolling_update_partition = none }) (sym t)
              ∙ ap (λ q. record { type = u.type; rolling_update_partition = q }) (sym p)
        ],
      )
  | inr e ↦
      let back = read_back u.type u.rolling_update_partition in
      let back' = rw e at back in
      (
        λ h. inl (ap (λ s. s.type) (sym h ∙ back')),
        λ s. elim s [
          | inl r ↦
              back'
              ∙ ap (λ x. record { type = x; rolling_update_partition = u.rolling_update_partition })
                  (sym r)
          | inr (t, p) ↦ let t' = (eq_iff u.type on_delete).1 t in cc
        ],
      )
]
