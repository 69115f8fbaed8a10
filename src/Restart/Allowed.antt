-- ===== src/Restart/Allowed.antt =====
-- The calls that `Restart` of pkg/restart/restart.go makes, however it ends.
use beekeeper.Common.{
  ◌≡◌, refl, ◌⊎◌, inl, inr, false, some, List, [], ◌∷◌, In, String, str_eq, eq_iff, Bool-cases, sym,
  ap, ◌≢◌,
}
use beekeeper.Common.Outcome.{Outcome, ok, err, panic}
use beekeeper.KubeApi.Objects.{
  Container, StatefulSet, Call, delete_pod, update_set, Log, found, Api,
}
use beekeeper.KubeApi.SetClient.{on_delete, with_image}
use beekeeper.Restart.Run.{RestartError, Sets, stateful_set_map, restart_with_image_update, restart}
use beekeeper.Restart.Owned.{IsOwned, stateful_set_map-IsEntry}
use beekeeper.Restart.Added.{
  Adds, Adds-refl, Updates, Deletes, restart_by_deleting_pods-Adds, update_each-Adds,
}

module _ (api : Api) (log : Log) (nodes : List String) (image : String) where
  -- Without an image, the deletion of the pod of a node. With one, a call for the set that owns the
  -- pod of a node and that the API gives: the update of the image of its first container or, if its
  -- strategy is on deletion, the deletion of the pod.
  abbrev pub IsAllowed : Call → Type 0
  IsAllowed c =
      ((image ≡ "") × ((p : String) × (c ≡ delete_pod p) × In p nodes))
      ⊎ ((image ≢ "")
          × ((name p : String) × IsOwned api log nodes name p
              × ((l : Log) × (s : StatefulSet) × (api.get_set l name ≡ found s)
                  × (((first : Container) × (others : List Container) × (s.containers
                          ≡ first ∷ others)
                        × (c
                            ≡ update_set (record s {
                              containers = record first { image = image } ∷ others;
                            })))
                      ⊎ ((s.update_strategy.type ≡ on_delete) × (c ≡ delete_pod p))))))

  with_image-first :
      (s s' : StatefulSet)
      → with_image image s ≡ some s'
      → (first : Container) × (others : List Container) × (s.containers ≡ first ∷ others)
        × (update_set s'
            ≡ update_set (record s { containers = record first { image = image } ∷ others }))
  unfolding with_image
  with_image-first s s' w = by_containers s.containers refl
    where
      by_containers :
          (l : List Container)
          → s.containers ≡ l
          → (first : Container) × (others : List Container) × (s.containers ≡ first ∷ others)
            × (update_set s'
                ≡ update_set (record s { containers = record first { image = image } ∷ others }))
      by_containers [] e = let w' = rw (with_image, e) at w in cc
      by_containers (c ∷ cs) e =
          let w' : some (record s { containers = record c { image = image } ∷ cs }) ≡ some s' =
            rw (with_image, e) at w in
          (
            c,
            cs,
            e,
            let q : record s { containers = record c { image = image } ∷ cs } ≡ s' = cc in
                ap (λ x. update_set x) (sym q),
          )

  -- However a restart ends, the calls that it adds to the log are these: without an image, deletions
  -- of the pods of its nodes; with one, for stateful sets that own the pods of nodes, updates of the
  -- set as the API gave it with the image in its first container, and deletions of owned pods if the API gave the set with the
  -- strategy on deletion. `order` is any order of the range over the map, which adds no entry.
  pub restart-IsAllowed :
      (order : Sets → Sets)
      → ((sets : Sets) (entry : String × List String) → In entry (order sets) → In entry sets)
      → (c : Call) → In c (restart api order (some nodes) image log).1
      → In c log ⊎ IsAllowed c
  unfolding restart restart_with_image_update
  restart-IsAllowed order visits = elim (Bool-cases (str_eq image "")) [
    | inl e ↦
        rw (restart, e)
          (restart_by_deleting_pods-Adds api IsAllowed nodes log
            (λ p i. inl ((eq_iff image "").0 e, (p, refl, i))))
    | inr e ↦ rw (restart, e) (by_map (given e) (stateful_set_map api log nodes []) refl)
  ]
    where
      given : str_eq image "" ≡ false → image ≢ ""
      given e q = let r = (eq_iff image "").1 q in cc

      permitted :
          image ≢ ""
          → (m : Sets) → stateful_set_map api log nodes [] ≡ ok m
          → (entry : String × List String) (l : Log) → In entry (order m)
          → Updates api IsAllowed image entry.0 l × Deletes api IsAllowed entry.0 entry.1 l
      permitted n m q entry l i =
          let ((p, j), owned) =
            stateful_set_map-IsEntry api log nodes nodes [] m q (λ x k. k) (λ x k. absurd k) entry
              (visits m entry i) in
          (
            (λ s s' g w.
                inr (n, (entry.0, p, owned p j, (l, s, g, inl (with_image-first s s' w))))),
            (λ s g d p' k. inr (n, (entry.0, p', owned p' k, (l, s, g, inr (d, refl))))),
          )

      by_map :
          image ≢ ""
          → (r : Outcome RestartError Sets) → stateful_set_map api log nodes [] ≡ r
          → Adds api IsAllowed log (restart_with_image_update api order nodes image log).1
      by_map n (ok m) q =
          rw (restart_with_image_update, q)
            (update_each-Adds api IsAllowed image (order m) log (permitted n m q))
      by_map n (err e) q = rw (restart_with_image_update, q) (Adds-refl api IsAllowed log)
      by_map n panic q = rw (restart_with_image_update, q) (Adds-refl api IsAllowed log)
