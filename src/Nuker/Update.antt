-- ===== src/Nuker/Update.antt =====
-- `updateAndRollbackStatefulSet` of pkg/nuker/nuker.go and what it calls. What the Kubernetes API
-- does with a call is a parameter, and so is the number of attempts that `RetryOnConflict` makes;
-- `Settings` and `Probe` stand for types of Kubernetes that are only copied.
use beekeeper.Common.{
  ℕ, zero, suc, Bool, not, Option, none, some, List, [], ◌∷◌, if◌then◌else◌, String, str_eq,
}
use beekeeper.Common.Outcome.{Outcome, ok, err, panic}
use beekeeper.Common.Dict.{Dict, lookup, insert}

module _ (Probe Settings : Type 0) where
  pub record Container : Type 0 where
    pub name : String
    pub image : String
    pub command : List String
    pub readiness_probe : Option Probe

  pub data UpdateStrategy : Type 0 where
    on_delete : UpdateStrategy
    rolling_update : Settings → UpdateStrategy

  pub record StatefulSet : Type 0 where
    pub name : String
    pub replicas : Option ℕ
    pub update_strategy : UpdateStrategy
    pub containers : List Container

pub data NukeError : Type 0 where
  no_bee_container get_failed update_failed conflict pods_failed : NukeError

pub data Update : Type 0 where
  updated conflicts fails : Update

-- What the API does with the get and the update number `i`, and with the pods of the update.
pub record Kube : Type 0 where
  pub gets : ℕ → Bool
  pub updates : ℕ → Update
  pub pods_complete : Bool

-- The command of the update, whose arguments are those of the client.
unfoldable pub nuke_args : Bool → Bool → List String
nuke_args forget_overlay forget_stamps =
    "bee"
    ∷ "db"
    ∷ "nuke"
    ∷ "--config=.bee.yaml"
    ∷ "--data-dir=/home/bee/.bee"
    ∷ (if forget_overlay then "--forget-overlay=true" else "--forget-overlay=false")
    ∷ (if forget_stamps then "--forget-stamps=true" else "--forget-stamps=false")
    ∷ []

module _ {Probe Settings : Type 0} where
  -- `beeContainerIndex`, where none stands for -1.
  unfoldable pub bee_container_index : List (Container Probe Settings) → Option ℕ
  bee_container_index [] = none
  bee_container_index (c ∷ cs) =
      let rest = bee_container_index cs in
      if str_eq c.name "bee" then some 0 else elim rest [ none ↦ none | some i ↦ some (suc i) ]

  -- An assignment to a field of the container number `i`.
  unfoldable pub assign :
      ℕ
      → (Container Probe Settings → Container Probe Settings)
      → List (Container Probe Settings)
      → List (Container Probe Settings)
  assign i f [] = []
  assign zero f (c ∷ cs) = f c ∷ cs
  assign (suc i) f (c ∷ cs) = c ∷ assign i f cs

  unfoldable pub remove_probes : List (Container Probe Settings) → List (Container Probe Settings)
  remove_probes [] = []
  remove_probes (c ∷ cs) = record c { readiness_probe = none } ∷ remove_probes cs

  unfoldable pub probes_of :
      Dict (Option Probe) → List (Container Probe Settings) → Dict (Option Probe)
  unfolding insert
  probes_of probes [] = probes
  probes_of probes (c ∷ cs) = probes_of (insert c.name c.readiness_probe probes) cs

  unfoldable pub put_probes :
      Dict (Option Probe) → List (Container Probe Settings) → List (Container Probe Settings)
  unfolding lookup
  put_probes probes [] = []
  put_probes probes (c ∷ cs) =
      let rest = put_probes probes cs in
      elim (lookup c.name probes) [
        | none ↦ c ∷ rest
        | some probe ↦ record c { readiness_probe = probe } ∷ rest
      ]

  unfoldable pub restore_readiness_probes :
      List (Container Probe Settings)
      → List (Container Probe Settings)
      → List (Container Probe Settings)
  unfolding probes_of put_probes
  restore_readiness_probes target original = put_probes (probes_of [] original) target

  -- The spec of the update: the command runs once in each pod, which nothing probes.
  unfoldable pub for_update :
      List String → ℕ → StatefulSet Probe Settings → StatefulSet Probe Settings
  unfolding assign remove_probes
  for_update update_args i latest = record latest {
    update_strategy = on_delete;
    containers = remove_probes (
        assign i (λ (c : Container Probe Settings). record c { command = update_args })
          latest.containers);
  }

  -- The spec of the rollback, with a new image if one is given.
  unfoldable pub for_rollback :
      StatefulSet Probe Settings
      → List String
      → String
      → ℕ
      → StatefulSet Probe Settings
      → StatefulSet Probe Settings
  unfolding assign restore_readiness_probes
  for_rollback original restart_args image i latest = record latest {
    update_strategy = original.update_strategy;
    replicas = original.replicas;
    containers =
        assign i
          (λ (c : Container Probe Settings). record c {
            image = (if str_eq image "" then c.image else image);
          })
          (restore_readiness_probes
            (assign i (λ (c : Container Probe Settings). record c { command = restart_args })
              latest.containers)
            original.containers);
  }

  -- `retry.RetryOnConflict` around a get and an update of the set that the cluster holds, from call
  -- number `i` on; the call number after it is returned, too.
  unfoldable pub modify :
      Kube
      → (ℕ → StatefulSet Probe Settings → StatefulSet Probe Settings)
      → ℕ
      → ℕ
      → StatefulSet Probe Settings
      → Outcome NukeError (Unit {0}) × ℕ × StatefulSet Probe Settings
  unfolding bee_container_index
  modify kube change zero i held = (err conflict, i, held)
  modify kube change (suc attempts) i held =
      let again = modify kube change attempts (suc i) held in
      if not (kube.gets i)
      then (err get_failed, suc i, held)
      else elim (bee_container_index held.containers) [
        | none ↦ (err no_bee_container, suc i, held)
        | some bee_idx ↦ elim (kube.updates i) [
          | updated ↦ (ok tt, suc i, change bee_idx held)
          | conflicts ↦ again
          | fails ↦ (err update_failed, suc i, held)
        ]
      ]

  -- After the change the pods are deleted and complete the command.
  unfoldable pub run_pods :
      Kube
      → Outcome NukeError (Unit {0}) × ℕ × StatefulSet Probe Settings
      → Outcome NukeError (Unit {0}) × ℕ × StatefulSet Probe Settings
  run_pods kube (ok u, i, held) = ((if kube.pods_complete then ok tt else err pods_failed), i, held)
  run_pods kube (err e, i, held) = (err e, i, held)
  run_pods kube (panic, i, held) = (panic, i, held)

  unfoldable pub update_phase :
      Kube
      → ℕ
      → List String
      → StatefulSet Probe Settings
      → Outcome NukeError (Unit {0}) × ℕ × StatefulSet Probe Settings
  unfolding modify for_update run_pods
  update_phase kube attempts update_args held =
      run_pods kube (modify kube (for_update update_args) attempts 0 held)

  -- The deferred rollback runs whatever the update ends in, and only logs its own errors, those of its
  -- pods included. `update_args` are `nuke_args` in the code.
  unfoldable pub update_and_rollback :
      Kube
      → ℕ
      → List String
      → List String
      → String
      → StatefulSet Probe Settings
      → StatefulSet Probe Settings
      → Outcome NukeError (Unit {0}) × StatefulSet Probe Settings
  unfolding bee_container_index update_phase modify for_rollback
  update_and_rollback kube attempts update_args restart_args image ss held =
      let (r, i, held') = update_phase kube attempts update_args held in
      let (_, j, after) = modify kube (for_rollback ss restart_args image) attempts i held' in
      elim (bee_container_index ss.containers) [
        | none ↦ (err no_bee_container, held)
        | some _ ↦ elim ss.replicas [ none ↦ (panic, held) | some _ ↦ (r, after) ]
      ]
