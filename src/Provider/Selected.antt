-- ===== src/Provider/Selected.antt =====
-- The service that `FindNode` of pkg/k8s/service/client.go finds for a pod.
use beekeeper.Common.{
  ℕ, ◌≡◌, refl, ◌↔◌, ◌⊎◌, inl, inr, true, false, Option, none, some, List, [], ◌∷◌, ◌++◌, All, In,
  String, str_eq, eq_iff, Bool-cases, ap, sym, ◌∙◌,
}
use mathlib.Core.Path.{subst}
use beekeeper.Common.Outcome.{Outcome, ok, err}
use beekeeper.Common.Dict.{Dict}
use beekeeper.Provider.Services.{
  Service, NodeInfo, ServiceError, no_matching_service, endpoint_of, label, matches, api_port,
  selected, first_selected, find_node,
}

-- The pod has every label of the selector.
abbrev pub HasLabels : Dict String → Dict String → Type 0
HasLabels labels selector = All (λ entry. label labels entry.0 ≡ entry.1) selector

matches_iff :
    (labels selector : Dict String) → (matches labels selector ≡ true) ↔ HasLabels labels selector
unfolding matches
matches_iff labels [] = (λ h. tt, λ h. refl)
matches_iff labels ((key, value) ∷ selector) = elim (Bool-cases (str_eq (label labels key) value)) [
  | inl e ↦
      let rest = matches_iff labels selector in
      (
        λ h. ((eq_iff (label labels key) value).0 e, rest.0 (rw (matches, e) at h)),
        λ h. rw (matches, e) (rest.1 h.1),
      )
  | inr e ↦ (
    λ h. let h' = rw (matches, e) at h in cc,
    λ h. let e' = (eq_iff (label labels key) value).1 h.0 in absurd (true-ne-false (sym e' ∙ e)),
  )
]
  where
    true-ne-false : true ≡ false → ⊥
    true-ne-false q = cc

-- A service selects a pod: it has a selector, whose labels the pod has, and an API port.
abbrev pub IsSelected : Dict String → Service → NodeInfo → Type 0
IsSelected labels svc node =
    (selector : Dict String) × (svc.selector ≡ some selector)
    × HasLabels labels selector
    × ((port : ℕ) × (api_port svc.ports ≡ some port)
        × (node ≡ record { name = svc.name; endpoint = endpoint_of svc.cluster_ip port }))

some_injective : {A : Type 0} {a b : A} → some a ≡ some b → a ≡ b
some_injective e = cc

selected_iff :
    (labels : Dict String) (svc : Service) (node : NodeInfo)
    → (selected labels svc ≡ some node) ↔ IsSelected labels svc node
unfolding selected
selected_iff labels svc node = (
  λ h. by_selector h svc.selector refl,
  λ (selector, e, l, (port, p, q)).
      rw (selected, e, (matches_iff labels selector).1 l, p) (ap some (sym q)),
)
  where
    by_selector :
        selected labels svc ≡ some node
        → (o : Option (Dict String)) → svc.selector ≡ o
        → IsSelected labels svc node
    by_selector h none e = let h' = rw (selected, e) at h in cc
    by_selector h (some selector) e = elim (Bool-cases (matches labels selector)) [
      | inr m ↦ let h' = rw (selected, e, m) at h in cc
      | inl m ↦
          (selector, e, (matches_iff labels selector).0 m, by_port m (api_port svc.ports) refl)
    ]
      where
        by_port :
            matches labels selector ≡ true
            → (o : Option ℕ) → api_port svc.ports ≡ o
            → (port : ℕ) × (api_port svc.ports ≡ some port)
              × (node ≡ record { name = svc.name; endpoint = endpoint_of svc.cluster_ip port })
        by_port m none p = let h' = rw (selected, e, m, p) at h in cc
        by_port m (some port) p =
            let h' = rw (selected, e, m, p) at h in (port, p, some_injective (sym h'))

-- The first service that selects the pod.
abbrev pub IsFirst : Dict String → List Service → NodeInfo → Type 0
IsFirst labels svcs node =
    (before : List Service) × (svc : Service) × (after : List Service) × (svcs
      ≡ before ++ svc ∷ after)
    × ((other : Service) → In other before → (n : NodeInfo) → ¬ (IsSelected labels other n))
    × IsSelected labels svc node

-- What a search comes to.
abbrev pub IsSearch : Dict String → List Service → Outcome ServiceError NodeInfo → Type 0
IsSearch labels svcs result =
    ((node : NodeInfo) × (result ≡ ok node) × IsFirst labels svcs node)
    ⊎ ((result ≡ err no_matching_service)
        × ((svc : Service) → In svc svcs → (n : NodeInfo) → ¬ (IsSelected labels svc n)))

-- A service that does not select the pod is passed over.
IsSearch-cons :
    (labels : Dict String) (svc : Service) (svcs : List Service)
    (result : Outcome ServiceError NodeInfo)
    → ((n : NodeInfo) → ¬ (IsSelected labels svc n))
    → IsSearch labels svcs result
    → IsSearch labels (svc ∷ svcs) result
IsSearch-cons labels svc svcs result other_one
      (inl (node, e, (before, s, after, q, unselected, is))) =
    inl (
      node,
      e,
      (
        svc ∷ before,
        s,
        after,
        ap (λ l. svc ∷ l) q,
        λ other i n. elim i [
          | inl same ↦ λ sel. other_one n (subst (λ x. IsSelected labels x n) same sel)
          | inr j ↦ unselected other j n
        ],
        is,
      ),
    )
IsSearch-cons labels svc svcs result other_one (inr (e, unselected)) = inr (
  e,
  λ other i n. elim i [
    | inl same ↦ λ sel. other_one n (subst (λ x. IsSelected labels x n) same sel)
    | inr j ↦ unselected other j n
  ],
)

first_selected-IsSearch :
    (labels : Dict String) (svcs : List Service) → IsSearch labels svcs (first_selected labels svcs)
unfolding first_selected
first_selected-IsSearch labels [] = inr (refl, λ svc i. absurd i)
first_selected-IsSearch labels (svc ∷ svcs) =
    by_first (selected labels svc) refl (first_selected-IsSearch labels svcs)
  where
    by_first :
        (o : Option NodeInfo)
        → selected labels svc ≡ o
        → IsSearch labels svcs (first_selected labels svcs)
        → IsSearch labels (svc ∷ svcs) (first_selected labels (svc ∷ svcs))
    by_first (some node) e rest = inl (
      node,
      rw (first_selected, e) refl,
      ([], svc, svcs, refl, λ other i. absurd i, (selected_iff labels svc node).0 e),
    )
    by_first none e rest =
        rw (first_selected, e)
          (IsSearch-cons labels svc svcs (first_selected labels svcs)
            (λ n s. let h = sym e ∙ (selected_iff labels svc n).1 s in cc) rest)

-- FindNode finds the first service with a selector whose labels the pod has and with an API port, and
-- gives its name and the endpoint of its cluster IP and that port; it fails with the error for that
-- when there is no such service.
pub find_node-IsSearch :
    (labels : Dict String) (svcs : List Service)
    → IsSearch labels svcs (find_node labels (some svcs))
unfolding find_node
find_node-IsSearch = first_selected-IsSearch
