-- ===== src/Restart/Grouped.antt =====
-- The sets that `restartWithImageUpdate` of pkg/restart/restart.go finds, and the pods of each.
use beekeeper.Common.{
  ◌≡◌, refl, ◌⊎◌, inl, inr, Option, none, some, List, [], ◌∷◌, ◌++◌, In, In-append_left,
  In-append_right, String, str_eq, eq_iff, Bool-cases, ap, sym, ◌∙◌,
}
use mathlib.Core.Path.{subst}
use beekeeper.Common.Outcome.{ok}
use beekeeper.Common.Dict.{Dict, lookup, insert, lookup-insert}
use beekeeper.KubeApi.Objects.{Pod, Log, Reply, found, not_found, failed, Api}
use beekeeper.KubeApi.PodClient.{pod_of}
use beekeeper.Restart.Run.{Sets, stateful_owner, append_pod, stateful_set_map}

-- The map has the pod under the name.
abbrev pub Holds : String → String → Sets → Type 0
Holds name pod sets = (pods : List String) × (lookup name sets ≡ some pods) × In pod pods

pub In-lookup :
    {V : Type 0} (name : String) (v : V) (m : Dict V) → lookup name m ≡ some v → In (name, v) m
unfolding lookup
In-lookup name v [] h = cc
In-lookup name v ((n, w) ∷ m) h = elim (Bool-cases (str_eq n name)) [
  | inl e ↦ let n' = (eq_iff n name).0 e in let h' : some w ≡ some v = rw (lookup, e) at h in inl cc
  | inr e ↦ inr (In-lookup name v m (rw (lookup, e) at h))
]

pub In-insert :
    {V : Type 0} (e : String × V) (k : String) (v : V) (m : Dict V)
    → In e (insert k v m)
    → (e ≡ (k, v)) ⊎ In e m
unfolding insert
In-insert e k v [] (inl q) = inl q
In-insert e k v [] (inr i) = absurd i
In-insert e k v ((n, w) ∷ m) i = elim (Bool-cases (str_eq n k)) [
  | inl q ↦
      let i' : In e ((k, v) ∷ m) = rw (insert, q) at i in
      elim i' [ inl h ↦ inl h | inr j ↦ inr (inr j) ]
  | inr q ↦
      let i' : In e ((n, w) ∷ insert k v m) = rw (insert, q) at i in
      elim i' [
        | inl h ↦ inr (inl h)
        | inr j ↦ elim (In-insert e k v m j) [ inl h ↦ inl h | inr l ↦ inr (inr l) ]
      ]
]

-- The pods of a set so far.
abbrev pub pods_so_far : String → Sets → List String
pods_so_far name sets = elim (lookup name sets) [ none ↦ [] | some pods ↦ pods ]

append_pod-Holds_new :
    (name node : String) (sets : Sets) → Holds name node (append_pod name node sets)
unfolding append_pod
append_pod-Holds_new name node sets = (
  pods_so_far name sets ++ node ∷ [],
  rw (append_pod, lookup-insert, (eq_iff name name).1 refl) refl,
  In-append_right node (pods_so_far name sets) (node ∷ []) (inl refl),
)

append_pod-Holds :
    (name node n p : String) (sets : Sets) → Holds n p sets → Holds n p (append_pod name node sets)
unfolding append_pod
append_pod-Holds name node n p sets (pods, l, i) = elim (Bool-cases (str_eq name n)) [
  | inl e ↦
      let l' : lookup name sets ≡ some pods =
        subst (λ k. lookup k sets ≡ some pods) (sym ((eq_iff name n).0 e)) l in
      (
        pods ++ node ∷ [],
        rw (append_pod, lookup-insert, e, l') refl,
        In-append_left p pods (node ∷ []) i,
      )
  | inr e ↦ (pods, rw (append_pod, lookup-insert, e) l, i)
]

module _ (api : Api) (log : Log) where
  -- A node that the loop passes has a pod, and is recorded if a set owns it.
  abbrev pub IsPassed : String → List String → Sets → Sets → Type 0
  IsPassed node nodes sets m =
      (pod : Pod) × (api.get_pod log node ≡ found pod)
      × (((stateful_owner pod.owner_references ≡ none)
            × (stateful_set_map api log nodes sets ≡ ok m))
          ⊎ ((name : String) × (stateful_owner pod.owner_references ≡ some name)
              × (stateful_set_map api log nodes (append_pod name node sets) ≡ ok m)))

  pub stateful_set_map-IsPassed :
      (node : String) (nodes : List String) (sets m : Sets)
      → stateful_set_map api log (node ∷ nodes) sets ≡ ok m
      → IsPassed node nodes sets m
  unfolding stateful_set_map pod_of
  stateful_set_map-IsPassed node nodes sets m e = by_reply (api.get_pod log node) refl
    where
      by_owner :
          (pod : Pod)
          → api.get_pod log node ≡ found pod
          → (o : Option String) → stateful_owner pod.owner_references ≡ o
          → IsPassed node nodes sets m
      by_owner pod g none o = (pod, g, inl (o, rw (stateful_set_map, pod_of, g, o) at e))
      by_owner pod g (some name) o =
          (pod, g, inr (name, o, rw (stateful_set_map, pod_of, g, o) at e))

      by_reply : (r : Reply Pod) → api.get_pod log node ≡ r → IsPassed node nodes sets m
      by_reply (found pod) g = by_owner pod g (stateful_owner pod.owner_references) refl
      by_reply not_found g = let e' = rw (stateful_set_map, pod_of, g) at e in cc
      by_reply failed g = let e' = rw (stateful_set_map, pod_of, g) at e in cc

  -- A pod that is recorded stays recorded.
  stateful_set_map-Holds :
      (nodes : List String) (sets m : Sets) (n p : String)
      → Holds n p sets
      → stateful_set_map api log nodes sets ≡ ok m
      → Holds n p m
  unfolding stateful_set_map
  stateful_set_map-Holds [] sets m n p h e = let q : sets ≡ m = cc in rw q at h
  stateful_set_map-Holds (node ∷ nodes) sets m n p h e =
      elim (stateful_set_map-IsPassed node nodes sets m e).2 [
        | inl (o, rest) ↦ stateful_set_map-Holds nodes sets m n p h rest
        | inr (name, o, rest) ↦
            stateful_set_map-Holds nodes (append_pod name node sets) m n p
              (append_pod-Holds name node n p sets h) rest
      ]

  -- Each pod of a node that a stateful set owns is recorded under the set.
  pub stateful_set_map-covers :
      (nodes : List String) (sets m : Sets) (node name : String) (pod : Pod)
      → stateful_set_map api log nodes sets ≡ ok m
      → In node nodes
      → api.get_pod log node ≡ found pod
      → stateful_owner pod.owner_references ≡ some name
      → Holds name node m
  unfolding stateful_set_map
  stateful_set_map-covers [] sets m node name pod e i g o = absurd i
  stateful_set_map-covers (first ∷ nodes) sets m node name pod e i g o =
      let passed = stateful_set_map-IsPassed first nodes sets m e in
      elim i [
        | inr j ↦ elim passed.2 [
          | inl (_, rest) ↦ stateful_set_map-covers nodes sets m node name pod rest j g o
          | inr (other, _, rest) ↦
              stateful_set_map-covers nodes (append_pod other first sets) m node name pod rest j g o
        ]
        | inl q ↦
            let same_reply : found passed.0 ≡ found pod =
              sym passed.1 ∙ ap (λ x. api.get_pod log x) (sym q) ∙ g in
            let same : passed.0 ≡ pod = cc in
            elim passed.2 [
              | inl (o', rest) ↦
                  let o'' : none ≡ some name =
                    sym o' ∙ ap (λ x. stateful_owner x.owner_references) same ∙ o in
                  cc
              | inr (other, o', rest) ↦
                  let o'' : some other ≡ some name =
                    sym o' ∙ ap (λ x. stateful_owner x.owner_references) same ∙ o in
                  let same_name : other ≡ name = cc in
                  stateful_set_map-Holds nodes (append_pod other first sets) m name node
                    (subst (λ x. Holds name node (append_pod x first sets)) (sym same_name)
                      (subst (λ x. Holds name node (append_pod name x sets)) q
                        (append_pod-Holds_new name node sets)))
                    rest
            ]
      ]
