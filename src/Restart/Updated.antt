-- ===== src/Restart/Updated.antt =====
-- The update of one stateful set by `restartWithImageUpdate` of pkg/restart/restart.go.
use beekeeper.Common.{
  ◌≡◌, refl, ◌⊎◌, inl, inr, Bool, true, false, Option, none, some, List, [], ◌∷◌, ◌++◌, In,
  if◌then◌else◌, String, str_eq, Bool-cases, ap, sym, ◌∙◌,
}
use mathlib.Core.Path.{subst}
use mathlib.Core.List.{append_assoc, append-nil}
use beekeeper.Common.Outcome.{Outcome, ok, err, panic}
use beekeeper.KubeApi.Objects.{
  StatefulSet, delete_pod, update_set, Log, Reply, found, not_found, failed, Api, KubeError,
  deleting_pod,
}
use beekeeper.KubeApi.PodClient.{delete}
use beekeeper.KubeApi.SetClient.{
  UpdateStrategy, on_delete, new_update_strategy, with_image, update, update_image,
  get_update_strategy,
}
use beekeeper.KubeApi.Deletions.{deletions}
use beekeeper.Restart.Run.{RestartError, restart_pod, restart_by_deleting_pods, update_one}

pub In-deletions :
    (p : String) (pods : List String) → In p pods → In (delete_pod p) (deletions pods)
In-deletions p [] i = absurd i
In-deletions p (q ∷ pods) (inl e) = inl (ap delete_pod e)
In-deletions p (q ∷ pods) (inr i) = inr (In-deletions p pods i)

module _ (api : Api) where
  -- A pod that is deleted without an error is logged.
  restart_pod-ok :
      (pod : String) (log : Log)
      → (restart_pod api pod log).0 ≡ ok tt
      → restart_pod api pod log ≡ (ok tt, log ++ delete_pod pod ∷ [])
  unfolding restart_pod delete
  restart_pod-ok pod log h = by_reply (api.change log (delete_pod pod)) refl
    where
      Deleted : Type 0
      Deleted = restart_pod api pod log ≡ (ok tt, log ++ delete_pod pod ∷ [])

      by_delete :
          (b : Bool) (after : Log)
          → delete api pod log ≡ (ok b, after)
          → after ≡ log ++ delete_pod pod ∷ []
          → Deleted
      by_delete true after d q =
          rw (restart_pod, ap (λ x. x.0) d) (ap (λ x. (ok tt, x.1)) d ∙ ap (λ l. (ok tt, l)) q)
      by_delete false after d q = let h' = rw (restart_pod, d) at h in cc

      by_reply : (r : Reply (Unit {0})) → api.change log (delete_pod pod) ≡ r → Deleted
      by_reply (found u) a = by_delete true (log ++ delete_pod pod ∷ []) (rw (delete, a) refl) refl
      by_reply not_found a =
          let d : delete api pod log ≡ (ok false, log) = rw (delete, a) refl in
          let h' = rw (restart_pod, d) at h in cc
      by_reply failed a =
          let d : delete api pod log ≡ (err (deleting_pod pod), log) = rw (delete, a) refl in
          let h' = rw (restart_pod, d) at h in cc

  -- The first pod is deleted, and then the others are.
  restart_by_deleting_pods-step :
      (pod : String) (pods : List String) (log : Log)
      → (restart_by_deleting_pods api (pod ∷ pods) log).0 ≡ ok tt
      → restart_by_deleting_pods api (pod ∷ pods) log
        ≡ restart_by_deleting_pods api pods (log ++ delete_pod pod ∷ [])
  unfolding restart_by_deleting_pods
  restart_by_deleting_pods-step pod pods log h =
      by_outcome (restart_pod api pod log).0 (restart_pod api pod log).1 refl
    where
      by_outcome :
          (r : Outcome RestartError (Unit {0})) (after : Log)
          → restart_pod api pod log ≡ (r, after)
          → restart_by_deleting_pods api (pod ∷ pods) log
            ≡ restart_by_deleting_pods api pods (log ++ delete_pod pod ∷ [])
      by_outcome (ok u) after q =
          let q' = restart_pod-ok pod log (ap (λ x. x.0) q) in
          rw (restart_by_deleting_pods, ap (λ x. x.0) q')
            (ap (λ x. restart_by_deleting_pods api pods x.1) q')
      by_outcome (err e) after q = let h' = rw (restart_by_deleting_pods, q) at h in cc
      by_outcome panic after q = let h' = rw (restart_by_deleting_pods, q) at h in cc

  pub restart_by_deleting_pods-ok :
      (pods : List String) (log : Log)
      → (restart_by_deleting_pods api pods log).0 ≡ ok tt
      → (restart_by_deleting_pods api pods log).1 ≡ log ++ deletions pods
  unfolding restart_by_deleting_pods
  restart_by_deleting_pods-ok [] log h = sym (append-nil log)
  restart_by_deleting_pods-ok (pod ∷ pods) log h =
      let q = restart_by_deleting_pods-step pod pods log h in
      ap (λ x. x.1) q
      ∙ restart_by_deleting_pods-ok pods (log ++ delete_pod pod ∷ []) (ap (λ x. x.0) (sym q) ∙ h)
      ∙ append_assoc log (delete_pod pod ∷ []) (deletions pods)

  -- What is done with a set: nothing if it is not found, and otherwise the update of its image and,
  -- if it updates its pods on their deletion, their deletion.
  abbrev pub IsUpdated : String → String → List String → Log → Log → Type 0
  IsUpdated image name pods before after =
      ((api.get_set before name ≡ not_found) × (after ≡ before))
      ⊎ ((s : StatefulSet) × (s' : StatefulSet) × (api.get_set before name ≡ found s)
          × (with_image image s ≡ some s')
          × (after
              ≡ (before ++ update_set s' ∷ [])
                ++ (if str_eq (new_update_strategy s.update_strategy).type on_delete
                    then deletions pods
                    else [])))

  -- An image is updated without an error: the set is not found, or it is updated.
  update_image-ok :
      (name image : String) (log after : Log)
      → update_image api name image log ≡ (ok tt, after)
      → ((api.get_set log name ≡ not_found) × (after ≡ log))
        ⊎ ((s : StatefulSet) × (s' : StatefulSet) × (api.get_set log name ≡ found s)
            × (with_image image s ≡ some s')
            × (after ≡ log ++ update_set s' ∷ []))
  unfolding update_image update
  update_image-ok name image log after h = by_reply (api.get_set log name) refl
    where
      Goal : Type 0
      Goal =
          ((api.get_set log name ≡ not_found) × (after ≡ log))
          ⊎ ((s : StatefulSet) × (s' : StatefulSet) × (api.get_set log name ≡ found s)
              × (with_image image s ≡ some s')
              × (after ≡ log ++ update_set s' ∷ []))

      by_update :
          (s s' : StatefulSet)
          → api.get_set log name ≡ found s
          → with_image image s ≡ some s'
          → (r : Reply (Unit {0})) → api.change log (update_set s') ≡ r
          → Goal
      by_update s s' g w (found u) a =
          let h' = rw (update_image, g, w, update, a) at h in
          inr (s, s', g, w, sym (ap (λ x. x.1) h'))
      by_update s s' g w not_found a = let h' = rw (update_image, g, w, update, a) at h in cc
      by_update s s' g w failed a = let h' = rw (update_image, g, w, update, a) at h in cc

      by_image :
          (s : StatefulSet)
          → api.get_set log name ≡ found s
          → (o : Option StatefulSet) → with_image image s ≡ o
          → Goal
      by_image s g none w = let h' = rw (update_image, g, w) at h in cc
      by_image s g (some s') w = by_update s s' g w (api.change log (update_set s')) refl

      by_reply : (r : Reply StatefulSet) → api.get_set log name ≡ r → Goal
      by_reply (found s) g = by_image s g (with_image image s) refl
      by_reply not_found g = let h' = rw (update_image, g) at h in inl (g, sym (ap (λ x. x.1) h'))
      by_reply failed g = let h' = rw (update_image, g) at h in cc

  -- The end of a set's update, once its strategy is known and its image is updated.
  finish : List String → UpdateStrategy → Log → Outcome RestartError (Unit {0}) × Log
  finish pods strategy after =
      if str_eq strategy.type on_delete
      then restart_by_deleting_pods api pods after
      else (ok tt, after)

  update_one-finish :
      (image name : String) (pods : List String) (log : Log)
      → (update_one api image name pods log).0 ≡ ok tt
      → (strategy : UpdateStrategy) × (after : Log) × (get_update_strategy api name log
          ≡ ok strategy)
        × (update_image api name image log ≡ (ok tt, after))
        × (update_one api image name pods log ≡ finish pods strategy after)
  unfolding update_one finish
  update_one-finish image name pods log h = by_strategy (get_update_strategy api name log) refl
    where
      Goal : Type 0
      Goal =
          (strategy : UpdateStrategy) × (after : Log) × (get_update_strategy api name log
            ≡ ok strategy)
          × (update_image api name image log ≡ (ok tt, after))
          × (update_one api image name pods log ≡ finish pods strategy after)

      by_image :
          (strategy : UpdateStrategy)
          → get_update_strategy api name log ≡ ok strategy
          → (r : Outcome KubeError (Unit {0})) (after : Log)
          → update_image api name image log ≡ (r, after)
          → Goal
      by_image strategy t (ok u) after q = (
        strategy,
        after,
        t,
        q,
        rw (update_one, t, ap (λ x. x.0) q) (ap (λ x. finish pods strategy x.1) q),
      )
      by_image strategy t (err e) after q = let h' = rw (update_one, t, ap (λ x. x.0) q) at h in cc
      by_image strategy t panic after q = let h' = rw (update_one, t, ap (λ x. x.0) q) at h in cc

      by_strategy :
          (r : Outcome KubeError UpdateStrategy) → get_update_strategy api name log ≡ r → Goal
      by_strategy (ok strategy) t =
          by_image strategy t (update_image api name image log).0
            (update_image api name image log).1 refl
      by_strategy (err e) t = let h' = rw (update_one, t) at h in cc
      by_strategy panic t = let h' = rw (update_one, t) at h in cc

  finish-ok :
      (pods : List String) (strategy : UpdateStrategy) (log : Log)
      → (finish pods strategy log).0 ≡ ok tt
      → (finish pods strategy log).1
        ≡ log ++ (if str_eq strategy.type on_delete then deletions pods else [])
  unfolding finish
  finish-ok pods strategy log h = elim (Bool-cases (str_eq strategy.type on_delete)) [
    | inl e ↦ rw (finish, e) (restart_by_deleting_pods-ok pods log (rw (finish, e) at h))
    | inr e ↦ rw (finish, e) (sym (append-nil log))
  ]

  pub update_one-IsUpdated :
      (image name : String) (pods : List String) (log : Log)
      → (update_one api image name pods log).0 ≡ ok tt
      → IsUpdated image name pods log (update_one api image name pods log).1
  unfolding get_update_strategy
  update_one-IsUpdated image name pods log h =
      let (strategy, after, t, q, e) = update_one-finish image name pods log h in
      let done = ap (λ x. x.1) e ∙ finish-ok pods strategy after (ap (λ x. x.0) (sym e) ∙ h) in
      elim (update_image-ok name image log after q) [
        | inl (g, a) ↦
            let t' : ok (record { type = ""; rolling_update_partition = none }) ≡ ok strategy =
              rw (get_update_strategy, g) at t in
            let same : record { type = ""; rolling_update_partition = none } ≡ strategy = cc in
            inl (
              g,
              subst
                    (λ x.
                      (update_one api image name pods log).1
                      ≡ after ++ (if str_eq x.type on_delete then deletions pods else []))
                    (sym same) done
                  ∙ append-nil after
                  ∙ a,
            )
        | inr (s, s', g, w, a) ↦
            let t' : ok (new_update_strategy s.update_strategy) ≡ ok strategy =
              rw (get_update_strategy, g) at t in
            let same : new_update_strategy s.update_strategy ≡ strategy = cc in
            inr (
              s,
              s',
              g,
              w,
              rw same (
                  done
                  ∙ ap (λ l. l ++ (if str_eq strategy.type on_delete then deletions pods else []))
                      a),
            )
      ]
