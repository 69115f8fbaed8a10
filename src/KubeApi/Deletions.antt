-- ===== src/KubeApi/Deletions.antt =====
-- What `DeletePods` of pkg/k8s/pod/client.go deletes, counts and reports.
use beekeeper.Common.{
  ℕ, suc, ◌+◌, ◌≡◌, refl, false, some, List, [], ◌∷◌, ◌++◌, length, arith, if◌then◌else◌, String,
  Bool-cases, inl, inr, ap, ◌⊎◌, ◌∙◌,
}
use mathlib.Core.List.{append_assoc, append-nil}
use beekeeper.Common.Outcome.{Outcome, ok, err}
use beekeeper.KubeApi.Objects.{
  Pod, delete_pod, Log, Reply, found, not_found, failed, Api, KubeError, pods_not_deleted,
}
use beekeeper.KubeApi.PodClient.{delete_listed, delete_pods}

-- The names of the pods that are not being deleted already.
abbrev pub live : List Pod → List String
live [] = []
live (pod ∷ pods) = let rest = live pods in if pod.deleting then rest else pod.name ∷ rest

-- The names are asked to be deleted one after the other, each at the calls made before it: those
-- whose deletion the API accepts, which is then one of the calls, and those whose deletion it refuses.
pub data Parts (api : Api) : Log → List String → List String → List String → Type 0 where
  done : {log : Log} → Parts api log [] [] []
  left :
      {log : Log} {all ls rs : List String} (name : String)
      → api.change log (delete_pod name) ≡ found tt
      → Parts api (log ++ delete_pod name ∷ []) all ls rs
      → Parts api log (name ∷ all) (name ∷ ls) rs
  right :
      {log : Log} {all ls rs : List String} (name : String)
      → (api.change log (delete_pod name) ≡ not_found) ⊎ (api.change log (delete_pod name) ≡ failed)
      → Parts api log all ls rs
      → Parts api log (name ∷ all) ls (name ∷ rs)

abbrev pub deletions : List String → Log
deletions [] = []
deletions (name ∷ names) = delete_pod name ∷ deletions names

abbrev pub ending : List String → Outcome KubeError (Unit {0})
ending [] = ok tt
ending (name ∷ names) = err (pods_not_deleted (name ∷ names))

module _ (api : Api) where
  -- What the loop does with a list of pods.
  abbrev Divides : List Pod → ℕ → List String → Log → (ℕ × List String) × Log → Type 0
  Divides pods c kept log result =
      (deleted : List String) × (refused : List String) × Parts api log (live pods) deleted refused
      × (result ≡ ((c + length deleted, kept ++ refused), log ++ deletions deleted))

  module _ (pod : Pod) (pods : List Pod)
      (rest : (c : ℕ) (kept : List String) (log : Log)
        → Divides pods c kept log (delete_listed api pods c kept log))
      (c : ℕ) (kept : List String) (log : Log) where
    refused_pod :
        pod.deleting ≡ false
        → (api.change log (delete_pod pod.name) ≡ not_found)
          ⊎ (api.change log (delete_pod pod.name) ≡ failed)
        → delete_listed api (pod ∷ pods) c kept log
          ≡ delete_listed api pods c (kept ++ pod.name ∷ []) log
        → Divides (pod ∷ pods) c kept log (delete_listed api (pod ∷ pods) c kept log)
    refused_pod d a step =
        let (deleted, refused, parts, e) = rest c (kept ++ pod.name ∷ []) log in
        (
          deleted,
          pod.name ∷ refused,
          rw d (right pod.name a parts),
          step
              ∙ e
              ∙ ap (λ k. ((c + length deleted, k), log ++ deletions deleted))
                  (append_assoc kept (pod.name ∷ []) refused),
        )

    by_reply :
        pod.deleting ≡ false
        → (r : Reply (Unit {0})) → api.change log (delete_pod pod.name) ≡ r
        → Divides (pod ∷ pods) c kept log (delete_listed api (pod ∷ pods) c kept log)
    unfolding delete_listed
    by_reply d (found u) a =
        let (deleted, refused, parts, e) = rest (suc c) kept (log ++ delete_pod pod.name ∷ []) in
        (
          pod.name ∷ deleted,
          refused,
          rw d (left pod.name a parts),
          rw (delete_listed, d, a)
              (e
                ∙ ap
                    (λ n. (
                      (n, kept ++ refused),
                      (log ++ delete_pod pod.name ∷ []) ++ deletions deleted,
                    ))
                    (omega arith)
                ∙ ap (λ l. ((c + suc (length deleted), kept ++ refused), l))
                    (append_assoc log (delete_pod pod.name ∷ []) (deletions deleted))),
        )
    by_reply d not_found a = refused_pod d (inl a) (rw (delete_listed, d, a) refl)
    by_reply d failed a = refused_pod d (inr a) (rw (delete_listed, d, a) refl)

    delete_listed-step : Divides (pod ∷ pods) c kept log (delete_listed api (pod ∷ pods) c kept log)
    unfolding delete_listed
    delete_listed-step = elim (Bool-cases pod.deleting) [
      | inl d ↦
          let (deleted, refused, parts, e) = rest c kept log in
          (deleted, refused, rw d parts, rw (delete_listed, d) e)
      | inr d ↦ by_reply d (api.change log (delete_pod pod.name)) refl
    ]

  delete_listed-Divides :
      (pods : List Pod) (c : ℕ) (kept : List String) (log : Log)
      → Divides pods c kept log (delete_listed api pods c kept log)
  unfolding delete_listed
  delete_listed-Divides [] c kept log = (
    [],
    [],
    done,
    rw (append-nil log, append-nil kept) (ap (λ n. ((n, kept), log)) (omega arith)),
  )
  delete_listed-Divides (pod ∷ pods) c kept log =
      delete_listed-step pod pods (λ n k l. delete_listed-Divides pods n k l) c kept log

-- DeletePods asks once for the deletion of each listed pod that is not being deleted yet. Those
-- whose deletion the API accepts are the calls that it makes, and those whose deletion the API does
-- not find or fails are the others. It returns the number of the first
-- and an error that lists the second, or no error if there are none.
pub delete_pods-Parts :
    (api : Api) (log : Log) (pods : List Pod)
    → api.list_pods log ≡ some pods
    → (deleted : List String) × (refused : List String) × Parts api log (live pods) deleted refused
      × (delete_pods api log ≡ ((length deleted, ending refused), log ++ deletions deleted))
unfolding delete_pods
delete_pods-Parts api log pods listed =
    let (deleted, refused, parts, e) = delete_listed-Divides api pods 0 [] log in
    let zero_add : 0 + length deleted ≡ length deleted = omega arith in
    (
      deleted,
      refused,
      parts,
      by_refused deleted refused (e ∙ ap (λ n. ((n, refused), log ++ deletions deleted)) zero_add),
    )
  where
    by_refused :
        (deleted refused : List String)
        → delete_listed api pods 0 [] log ≡ ((length deleted, refused), log ++ deletions deleted)
        → delete_pods api log ≡ ((length deleted, ending refused), log ++ deletions deleted)
    by_refused deleted [] e =
        rw (delete_pods, listed, ap (λ r. r.0.1) e) (ap (λ r. ((r.0.0, ok tt), r.1)) e)
    by_refused deleted (name ∷ names) e =
        rw (delete_pods, listed, ap (λ r. r.0.1) e)
          (ap (λ r. ((r.0.0, ending (name ∷ names)), r.1)) e)
