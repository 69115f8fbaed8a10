-- ===== src/Restart/Restarted.antt =====
-- What an update of images by `Restart` of pkg/restart/restart.go comes to for each node.
use beekeeper.Common.{
  ◌≡◌, refl, ◌⊎◌, inl, inr, some, List, [], ◌∷◌, ◌++◌, In, In-append_left, In-append_right,
  if◌then◌else◌, String, str_eq, ap, sym, ◌∙◌,
}
use mathlib.Core.Path.{subst}
use mathlib.Core.List.{append_assoc, append-nil}
use beekeeper.Common.Outcome.{Outcome, ok, err, panic}
use beekeeper.KubeApi.Objects.{
  Pod, StatefulSet, Call, delete_pod, update_set, Log, found, not_found, Api,
}
use beekeeper.KubeApi.SetClient.{on_delete, new_update_strategy, with_image}
use beekeeper.KubeApi.Deletions.{deletions}
use beekeeper.Restart.Run.{
  RestartError, Sets, stateful_owner, stateful_set_map, update_one, update_each,
  restart_with_image_update,
}
use beekeeper.Restart.Grouped.{In-lookup, stateful_set_map-covers}
use beekeeper.Restart.Updated.{In-deletions, IsUpdated, update_one-IsUpdated}

-- A log and a later one.
abbrev pub Prefix : Log → Log → Type 0
Prefix before after = (rest : Log) × (after ≡ before ++ rest)

Prefix-In : (before after : Log) → Prefix before after → (c : Call) → In c before → In c after
Prefix-In before after (rest, e) c i = subst (λ l. In c l) (sym e) (In-append_left c before rest i)

module _ (api : Api) (image : String) where
  Prefix-trans : (l m n : Log) → Prefix l m → Prefix m n → Prefix l n
  Prefix-trans l m n (r, e) (r', e') = (r ++ r', e' ∙ ap (λ x. x ++ r') e ∙ append_assoc l r r')

  IsUpdated-Prefix :
      (name : String) (pods : List String) (before after : Log)
      → IsUpdated api image name pods before after
      → Prefix before after
  IsUpdated-Prefix name pods before after (inl (g, e)) = ([], e ∙ sym (append-nil before))
  IsUpdated-Prefix name pods before after (inr (s, s', g, w, e)) =
      let sent =
        if str_eq (new_update_strategy s.update_strategy).type on_delete
        then deletions pods
        else [] in
      (update_set s' ∷ sent, e ∙ append_assoc before (update_set s' ∷ []) sent)

  IsUpdated-sends :
      (name : String) (pods : List String) (before after : Log) (s s' : StatefulSet)
      → after
        ≡ (before ++ update_set s' ∷ [])
          ++ (if str_eq (new_update_strategy s.update_strategy).type on_delete
              then deletions pods
              else [])
      → (c : Call)
      → In c (before ++ update_set s' ∷ [])
        ⊎ In c (
            if str_eq (new_update_strategy s.update_strategy).type on_delete
            then deletions pods
            else [])
      → In c after
  IsUpdated-sends name pods before after s s' e c i =
      let rest =
        if str_eq (new_update_strategy s.update_strategy).type on_delete
        then deletions pods
        else [] in
      subst (λ l. In c l) (sym e)
        (elim i [
          | inl j ↦ In-append_left c (before ++ update_set s' ∷ []) rest j
          | inr j ↦ In-append_right c (before ++ update_set s' ∷ []) rest j
        ])

  -- The first set is updated, and then the others are.
  update_each-step :
      (name : String) (pods : List String) (sets : Sets) (log : Log)
      → (update_each api image ((name, pods) ∷ sets) log).0 ≡ ok tt
      → ((update_one api image name pods log).0 ≡ ok tt)
        × (update_each api image ((name, pods) ∷ sets) log
            ≡ update_each api image sets (update_one api image name pods log).1)
  unfolding update_each
  update_each-step name pods sets log h = by_outcome (update_one api image name pods log).0 refl
    where
      by_outcome :
          (r : Outcome RestartError (Unit {0}))
          → (update_one api image name pods log).0 ≡ r
          → ((update_one api image name pods log).0 ≡ ok tt)
            × (update_each api image ((name, pods) ∷ sets) log
                ≡ update_each api image sets (update_one api image name pods log).1)
      by_outcome (ok u) q = (q, rw (update_each, q) refl)
      by_outcome (err e) q = let h' = rw (update_each, q) at h in cc
      by_outcome panic q = let h' = rw (update_each, q) at h in cc

  update_each-Prefix :
      (sets : Sets) (log : Log)
      → (update_each api image sets log).0 ≡ ok tt
      → Prefix log (update_each api image sets log).1
  unfolding update_each
  update_each-Prefix [] log h = ([], sym (append-nil log))
  update_each-Prefix ((name, pods) ∷ sets) log h =
      let (one, e) = update_each-step name pods sets log h in
      let after = (update_one api image name pods log).1 in
      subst (λ r. Prefix log r.1) (sym e)
        (Prefix-trans log after (update_each api image sets after).1
          (IsUpdated-Prefix name pods log after (update_one-IsUpdated api image name pods log one))
          (update_each-Prefix sets after (ap (λ r. r.0) (sym e) ∙ h)))

  -- Every set of the map is updated at some point of the log.
  update_each-IsUpdated :
      (sets : Sets) (log : Log) (name : String) (pods : List String)
      → (update_each api image sets log).0 ≡ ok tt
      → In (name, pods) sets
      → (before : Log) × (after : Log) × Prefix log before
        × IsUpdated api image name pods before after
        × Prefix after (update_each api image sets log).1
  unfolding update_each
  update_each-IsUpdated [] log name pods h i = absurd i
  update_each-IsUpdated ((n, ps) ∷ sets) log name pods h i =
      let (one, e) = update_each-step n ps sets log h in
      let after = (update_one api image n ps log).1 in
      let h' = ap (λ r. r.0) (sym e) ∙ h in
      let updated = update_one-IsUpdated api image n ps log one in
      elim i [
        | inl q ↦ (
          log,
          after,
          ([], sym (append-nil log)),
          subst (λ x. IsUpdated api image x.0 x.1 log after) (sym q) updated,
          subst (λ r. Prefix after r.1) (sym e) (update_each-Prefix sets after h'),
        )
        | inr j ↦
            let (b, a, p, u, g) = update_each-IsUpdated sets after name pods h' j in
            (
              b,
              a,
              Prefix-trans log after b (IsUpdated-Prefix n ps log after updated) p,
              u,
              subst (λ r. Prefix a r.1) (sym e) g,
            )
      ]

  -- The node is restarted: its set is updated to the image, and if the set updates its pods on their
  -- deletion only, its pod is deleted, too.
  abbrev pub IsRestarted : String → StatefulSet → Log → Type 0
  IsRestarted node s log =
      (s' : StatefulSet) × (with_image image s ≡ some s')
      × In (update_set s') log
      × ((new_update_strategy s.update_strategy).type ≡ on_delete → In (delete_pod node) log)

-- When an update of images ends without an error, each node whose pod a stateful set owns is
-- restarted with the image, but for a set that is not found when, at some point of the run, it is
-- looked up for its update. `order` is any order of the range over the map, which leaves out no
-- entry.
pub restart_with_image_update-IsRestarted :
    (api : Api) (order : Sets → Sets) (nodes : List String) (image : String) (log : Log)
    → ((sets : Sets) (entry : String × List String) → In entry sets → In entry (order sets))
    → (restart_with_image_update api order nodes image log).0 ≡ ok tt
    → (node name : String) (pod : Pod) → In node nodes
    → api.get_pod log node ≡ found pod
    → stateful_owner pod.owner_references ≡ some name
    → (before : Log) × Prefix log before
      × Prefix before (restart_with_image_update api order nodes image log).1
      × ((api.get_set before name ≡ not_found)
          ⊎ ((s : StatefulSet) × (api.get_set before name ≡ found s)
              × IsRestarted api image node s
                  (restart_with_image_update api order nodes image log).1))
unfolding restart_with_image_update
restart_with_image_update-IsRestarted api order nodes image log visits h node name pod i g o =
    by_map (stateful_set_map api log nodes []) refl
  where
    Goal : Type 0
    Goal =
        (before : Log) × Prefix log before
        × Prefix before (restart_with_image_update api order nodes image log).1
        × ((api.get_set before name ≡ not_found)
            ⊎ ((s : StatefulSet) × (api.get_set before name ≡ found s)
                × IsRestarted api image node s
                    (restart_with_image_update api order nodes image log).1))

    by_map : (r : Outcome RestartError Sets) → stateful_set_map api log nodes [] ≡ r → Goal
    by_map (err e) q = let h' = rw (restart_with_image_update, q) at h in cc
    by_map panic q = let h' = rw (restart_with_image_update, q) at h in cc
    by_map (ok m) q =
        let same : restart_with_image_update api order nodes image log
            ≡ update_each api image (order m) log =
          rw (restart_with_image_update, q) refl in
        let (pods, l, j) = stateful_set_map-covers api log nodes [] m node name pod q i g o in
        let (before, after, begun, u, ended) =
          update_each-IsUpdated api image (order m) log name pods (ap (λ r. r.0) (sym same) ∙ h)
            (visits m (name, pods) (In-lookup name pods m l)) in
        let grows = λ (c : Call). Prefix-In after (update_each api image (order m) log).1 ended c in
        (
          before,
          begun,
          subst (λ r. Prefix before r.1) (sym same)
              (Prefix-trans api image before after (update_each api image (order m) log).1
                (IsUpdated-Prefix api image name pods before after u) ended),
          elim u [
            | inl (missing, _) ↦ inl missing
            | inr (s, s', here, w, e) ↦ inr (
              s,
              here,
              (
                s',
                w,
                subst (λ r. In (update_set s') r.1) (sym same)
                    (grows (update_set s') (
                      IsUpdated-sends api image name pods before after s s' e (update_set s') (
                        inl (
                          In-append_right (update_set s') before (update_set s' ∷ [])
                            (inl refl))))),
                λ t.
                    subst (λ r. In (delete_pod node) r.1) (sym same)
                      (grows (delete_pod node) (
                        IsUpdated-sends api image name pods before after s s' e (delete_pod node)
                          (inr (rw t (In-deletions node pods j))))),
              ),
            )
          ],
        )
