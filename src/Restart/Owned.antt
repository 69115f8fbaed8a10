-- ===== src/Restart/Owned.antt =====
-- The entries of the map of `restartWithImageUpdate` in pkg/restart/restart.go: each set with pods of
-- the nodes that the set owns.
use beekeeper.Common.{
  ◌≡◌, refl, inl, inr, List, [], ◌∷◌, ◌++◌, In, In-append_right, In-append_cases, String, sym,
  Option, none, some,
}
use mathlib.Core.Path.{subst}
use beekeeper.Common.Outcome.{ok}
use beekeeper.Common.Dict.{lookup}
use beekeeper.KubeApi.Objects.{Pod, Log, found, Api}
use beekeeper.Restart.Run.{Sets, stateful_owner, append_pod, stateful_set_map}
use beekeeper.Restart.Grouped.{In-lookup, In-insert, pods_so_far, stateful_set_map-IsPassed}

module _ (api : Api) (log : Log) (all : List String) where
  -- The pod of a node that the set owns.
  abbrev pub IsOwned : String → String → Type 0
  IsOwned name node =
      In node all
      × ((pod : Pod) × (api.get_pod log node ≡ found pod)
          × (stateful_owner pod.owner_references ≡ some name))

  -- An entry has pods, and all of them are the set's.
  abbrev pub IsEntry : String × List String → Type 0
  IsEntry entry = ((p : String) × In p entry.1) × ((p : String) → In p entry.1 → IsOwned entry.0 p)

  append_pod-IsEntry :
      (name node : String) (sets : Sets)
      → IsOwned name node
      → ((e : String × List String) → In e sets → IsEntry e)
      → (e : String × List String) → In e (append_pod name node sets)
      → IsEntry e
  unfolding append_pod
  append_pod-IsEntry name node sets o h e i =
      elim (In-insert e name (pods_so_far name sets ++ node ∷ []) sets i) [
        | inr j ↦ h e j
        | inl q ↦
            subst (λ x. IsEntry x) (sym q)
              (
                (node, In-append_right node (pods_so_far name sets) (node ∷ []) (inl refl)),
                λ p j. elim (In-append_cases p (pods_so_far name sets) (node ∷ []) j) [
                  | inl k ↦ earlier p (lookup name sets) refl k
                  | inr k ↦ elim k [
                    | inl s ↦ subst (λ x. IsOwned name x) (sym s) o
                    | inr a ↦ absurd a
                  ]
                ],
              )
      ]
    where
      earlier :
          (p : String) (o : Option (List String))
          → lookup name sets ≡ o
          → In p (elim o [ none ↦ [] | some pods ↦ pods ])
          → IsOwned name p
      earlier p none q k = absurd k
      earlier p (some pods) q k = (h (name, pods) (In-lookup name pods sets q)).1 p k

  pub stateful_set_map-IsEntry :
      (nodes : List String) (sets m : Sets)
      → stateful_set_map api log nodes sets ≡ ok m
      → ((n : String) → In n nodes → In n all)
      → ((e : String × List String) → In e sets → IsEntry e)
      → (e : String × List String) → In e m
      → IsEntry e
  unfolding stateful_set_map
  stateful_set_map-IsEntry [] sets m q sub h e i =
      let same : sets ≡ m = cc in h e (subst (λ x. In e x) (sym same) i)
  stateful_set_map-IsEntry (node ∷ nodes) sets m q sub h e i =
      let (pod, g, step) = stateful_set_map-IsPassed api log node nodes sets m q in
      elim step [
        | inl (_, rest) ↦ stateful_set_map-IsEntry nodes sets m rest (λ n j. sub n (inr j)) h e i
        | inr (name, o, rest) ↦
            stateful_set_map-IsEntry nodes (append_pod name node sets) m rest (λ n j. sub n (inr j))
              (append_pod-IsEntry name node sets (sub node (inl refl), (pod, g, o)) h) e i
      ]
