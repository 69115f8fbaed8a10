-- ===== src/Restart/Added.antt =====
-- The calls that the two ways of `Restart` in pkg/restart/restart.go add to the log, however they end,
-- when those that they ask for are permitted.
use beekeeper.Common.{
  ◌≡◌, refl, ◌⊎◌, inl, inr, Bool, true, false, Option, none, some, List, [], ◌∷◌, ◌++◌, In,
  In-append_cases, String, str_eq, eq_iff, Bool-cases, sym, ap, ◌∙◌,
}
use mathlib.Core.Path.{subst}
use beekeeper.Common.Outcome.{Outcome, ok, err, panic}
use beekeeper.KubeApi.Objects.{
  StatefulSet, Call, delete_pod, update_set, Log, Reply, found, not_found, failed, Api, KubeError,
}
use beekeeper.KubeApi.PodClient.{delete}
use beekeeper.KubeApi.SetClient.{
  UpdateStrategy, on_delete, new_update_strategy, with_image, update, update_image,
  get_update_strategy,
}
use beekeeper.Restart.Run.{
  RestartError, Sets, restart_pod, restart_by_deleting_pods, update_one, update_each,
}

module _ (api : Api) (Permitted : Call → Type 0) where
  -- All calls that are added are permitted.
  abbrev pub Adds : Log → Log → Type 0
  Adds before after = (c : Call) → In c after → In c before ⊎ Permitted c

  Adds-trans : (l m n : Log) → Adds l m → Adds m n → Adds l n
  Adds-trans l m n f g c i = elim (g c i) [ inl j ↦ f c j | inr a ↦ inr a ]

  pub Adds-refl : (l : Log) → Adds l l
  Adds-refl l c i = inl i

  Adds-last : (l : Log) (c : Call) → Permitted c → Adds l (l ++ c ∷ [])
  Adds-last l c a d i = elim (In-append_cases d l (c ∷ []) i) [
    | inl j ↦ inl j
    | inr j ↦ elim j [ inl q ↦ inr (subst (λ x. Permitted x) (sym q) a) | inr e ↦ absurd e ]
  ]

  delete-Adds :
      (pod : String) (log : Log) → Permitted (delete_pod pod) → Adds log (delete api pod log).1
  unfolding delete
  delete-Adds pod log i = by_reply (api.change log (delete_pod pod)) refl
    where
      by_reply :
          (r : Reply (Unit {0}))
          → api.change log (delete_pod pod) ≡ r
          → Adds log (delete api pod log).1
      by_reply (found u) a = rw (delete, a) (Adds-last log (delete_pod pod) i)
      by_reply not_found a = rw (delete, a) (Adds-refl log)
      by_reply failed a = rw (delete, a) (Adds-refl log)

  restart_pod-Adds :
      (pod : String) (log : Log) → Permitted (delete_pod pod) → Adds log (restart_pod api pod log).1
  unfolding restart_pod
  restart_pod-Adds pod log i = by_outcome (delete api pod log).0 refl
    where
      by_outcome :
          (r : Outcome KubeError Bool)
          → (delete api pod log).0 ≡ r
          → Adds log (restart_pod api pod log).1
      by_outcome (ok true) q = rw (restart_pod, q) (delete-Adds pod log i)
      by_outcome (ok false) q = rw (restart_pod, q) (delete-Adds pod log i)
      by_outcome (err e) q = rw (restart_pod, q) (delete-Adds pod log i)
      by_outcome panic q = rw (restart_pod, q) (delete-Adds pod log i)

  -- A second call is only made after a first one without an error.
  after_ok :
      (first : Outcome RestartError (Unit {0}) × Log)
      (next : Log → Outcome RestartError (Unit {0}) × Log) (log : Log)
      → Adds log first.1
      → Adds first.1 (next first.1).1
      → (whole : Outcome RestartError (Unit {0}) × Log)
      → whole ≡ (elim first.0 [
        | ok _ ↦ next first.1
        | err e ↦ (err e, first.1)
        | panic ↦ (panic, first.1)
      ])
      → Adds log whole.1
  after_ok (ok u, m) next log f g whole e =
      subst (λ w. Adds log w.1) (sym e) (Adds-trans log m (next m).1 f g)
  after_ok (err x, m) next log f g whole e = subst (λ w. Adds log w.1) (sym e) f
  after_ok (panic, m) next log f g whole e = subst (λ w. Adds log w.1) (sym e) f

  pub restart_by_deleting_pods-Adds :
      (pods : List String) (log : Log)
      → ((p : String) → In p pods → Permitted (delete_pod p))
      → Adds log (restart_by_deleting_pods api pods log).1
  unfolding restart_by_deleting_pods
  restart_by_deleting_pods-Adds [] log h = Adds-refl log
  restart_by_deleting_pods-Adds (pod ∷ pods) log h =
      after_ok (restart_pod api pod log) (restart_by_deleting_pods api pods) log
        (restart_pod-Adds pod log (h pod (inl refl)))
        (restart_by_deleting_pods-Adds pods (restart_pod api pod log).1 (λ p i. h p (inr i)))
        (restart_by_deleting_pods api (pod ∷ pods) log) refl

  -- The update of the set of a name, as the API gives it, is permitted.
  abbrev pub Updates : String → String → Log → Type 0
  Updates image name log =
      (s s' : StatefulSet)
      → api.get_set log name ≡ found s
      → with_image image s ≡ some s'
      → Permitted (update_set s')

  -- The deletion of the pods is permitted if the API gives a set that updates them on deletion.
  abbrev pub Deletes : String → List String → Log → Type 0
  Deletes name pods log =
      (s : StatefulSet)
      → api.get_set log name ≡ found s
      → s.update_strategy.type ≡ on_delete
      → (p : String) → In p pods
      → Permitted (delete_pod p)

  -- A strategy that deletes is that of a set that the API gives.
  on_delete-found :
      (name : String) (log : Log) (strategy : UpdateStrategy)
      → get_update_strategy api name log ≡ ok strategy
      → str_eq strategy.type on_delete ≡ true
      → (s : StatefulSet) × (api.get_set log name ≡ found s) × (s.update_strategy.type ≡ on_delete)
  unfolding get_update_strategy new_update_strategy
  on_delete-found name log strategy t e = by_reply (api.get_set log name) refl
    where
      by_reply :
          (r : Reply StatefulSet)
          → api.get_set log name ≡ r
          → (s : StatefulSet) × (api.get_set log name ≡ found s)
            × (s.update_strategy.type ≡ on_delete)
      by_reply failed g = let t' = rw (get_update_strategy, g) at t in cc
      by_reply not_found g =
          let t' = rw (get_update_strategy, g) at t in
          let same : strategy ≡ record { type = ""; rolling_update_partition = none } = cc in
          let e' : false ≡ true = rw same at e in cc
      by_reply (found s) g = elim (Bool-cases (str_eq s.update_strategy.type on_delete)) [
        | inl d ↦ (s, g, (eq_iff s.update_strategy.type on_delete).0 d)
        | inr d ↦
            let t' : ok (new_update_strategy s.update_strategy) ≡ ok strategy =
              rw (get_update_strategy, g) at t in
            let same : new_update_strategy s.update_strategy ≡ strategy = cc in
            let e' : str_eq (new_update_strategy s.update_strategy).type on_delete ≡ true =
              ap (λ x. str_eq x.type on_delete) same ∙ e in
            let e'' : false ≡ true = rw (new_update_strategy, d) at e' in cc
      ]

  update_image-Adds :
      (image name : String) (log : Log)
      → Updates image name log
      → Adds log (update_image api name image log).1
  unfolding update_image update
  update_image-Adds image name log permitted = by_reply (api.get_set log name) refl
    where
      by_update :
          (s s' : StatefulSet)
          → api.get_set log name ≡ found s
          → with_image image s ≡ some s'
          → (r : Reply (Unit {0})) → api.change log (update_set s') ≡ r
          → Adds log (update_image api name image log).1
      by_update s s' g w (found u) a =
          rw (update_image, g, w, update, a) (Adds-last log (update_set s') (permitted s s' g w))
      by_update s s' g w not_found a = rw (update_image, g, w, update, a) (Adds-refl log)
      by_update s s' g w failed a = rw (update_image, g, w, update, a) (Adds-refl log)

      by_image :
          (s : StatefulSet)
          → api.get_set log name ≡ found s
          → (o : Option StatefulSet) → with_image image s ≡ o
          → Adds log (update_image api name image log).1
      by_image s g none w = rw (update_image, g, w) (Adds-refl log)
      by_image s g (some s') w = by_update s s' g w (api.change log (update_set s')) refl

      by_reply :
          (r : Reply StatefulSet)
          → api.get_set log name ≡ r
          → Adds log (update_image api name image log).1
      by_reply (found s) g = by_image s g (with_image image s) refl
      by_reply not_found g = rw (update_image, g) (Adds-refl log)
      by_reply failed g = rw (update_image, g) (Adds-refl log)

  update_one-Adds :
      (image name : String) (pods : List String) (log : Log)
      → Updates image name log
      → Deletes name pods log
      → Adds log (update_one api image name pods log).1
  unfolding update_one
  update_one-Adds image name pods log permitted deletes =
      by_strategy (get_update_strategy api name log) refl
    where
      Goal : Type 0
      Goal = Adds log (update_one api image name pods log).1

      by_image :
          (strategy : UpdateStrategy)
          → get_update_strategy api name log ≡ ok strategy
          → (r : Outcome KubeError (Unit {0})) → (update_image api name image log).0 ≡ r
          → Goal
      by_image strategy t (ok u) q = elim (Bool-cases (str_eq strategy.type on_delete)) [
        | inl e ↦
            rw (update_one, t, q, e)
              (Adds-trans log (update_image api name image log).1
                (restart_by_deleting_pods api pods (update_image api name image log).1).1
                (update_image-Adds image name log permitted)
                (restart_by_deleting_pods-Adds pods (update_image api name image log).1
                  (let (s, g, d) = on_delete-found name log strategy t e in deletes s g d)))
        | inr e ↦ rw (update_one, t, q, e) (update_image-Adds image name log permitted)
      ]
      by_image strategy t (err e) q =
          rw (update_one, t, q) (update_image-Adds image name log permitted)
      by_image strategy t panic q =
          rw (update_one, t, q) (update_image-Adds image name log permitted)

      by_strategy :
          (r : Outcome KubeError UpdateStrategy) → get_update_strategy api name log ≡ r → Goal
      by_strategy (ok strategy) t = by_image strategy t (update_image api name image log).0 refl
      by_strategy (err e) t = rw (update_one, t) (Adds-refl log)
      by_strategy panic t = rw (update_one, t) (Adds-refl log)

  pub update_each-Adds :
      (image : String) (sets : Sets) (log : Log)
      → ((entry : String × List String) (l : Log)
          → In entry sets
          → Updates image entry.0 l × Deletes entry.0 entry.1 l)
      → Adds log (update_each api image sets log).1
  unfolding update_each
  update_each-Adds image [] log h = Adds-refl log
  update_each-Adds image ((name, pods) ∷ sets) log h =
      after_ok (update_one api image name pods log) (update_each api image sets) log
        (update_one-Adds image name pods log (h (name, pods) log (inl refl)).0
          (h (name, pods) log (inl refl)).1)
        (update_each-Adds image sets (update_one api image name pods log).1
          (λ e l i. h e l (inr i)))
        (update_each api image ((name, pods) ∷ sets) log) refl
