-- ===== src/Examples/Nukes.antt =====
-- Runs of the update and rollback of a stateful set (pkg/nuker/nuker.go).
use beekeeper.Common.{
  ℕ, zero, suc, ◌≡◌, refl, true, false, Option, ◌++◌, none, some, List, [], ◌∷◌, String, str_eq,
  if◌then◌else◌,
}
use beekeeper.Common.Dict.{Dict, lookup}
use beekeeper.Common.Outcome.{ok, err}
use beekeeper.Nuker.Update.{
  Container, StatefulSet, pods_failed, Kube, updated, conflicts, fails, on_delete, rolling_update,
  bee_container_index, modify, update_phase, nuke_args, update_and_rollback,
}
use beekeeper.Nuker.Sets.{Found, found, missing, failed, get_set_failed, nuke_by_stateful_sets}
use beekeeper.Nuker.Nuked.{IsDone, nuke_by_stateful_sets-IsDone}
use beekeeper.Nuker.Run.{run}
use beekeeper.Setup.Names.{numbered}
use beekeeper.Common.Int.{wrap64, ◌+ℤ◌, ◌-ℤ◌}
use beekeeper.Random.Defs.{draw_unused}
use beekeeper.Nuker.Neighborhoods.{IsRun, run-IsFair}
use beekeeper.Nuker.Rollback.{put_back, update_and_rollback-put_back}

abbrev side : Container ℕ ℕ
side = record { name = "side"; image = "proxy"; command = []; readiness_probe = some 7 }

abbrev bee : Container ℕ ℕ
bee = record {
  name = "bee";
  image = "bee:1";
  command = "bee" ∷ "start" ∷ [];
  readiness_probe = some 8;
}

abbrev bees : StatefulSet ℕ ℕ
bees = record {
  name = "bee-0";
  replicas = some 1;
  update_strategy = rolling_update 3;
  containers = side ∷ bee ∷ [];
}

-- The first update conflicts, and the pods do not complete the command.
abbrev busy_kube : Kube
busy_kube = record {
  gets = λ i. true;
  updates = λ i. elim i [ zero ↦ conflicts | suc j ↦ updated ];
  pods_complete = false;
}

abbrev restart_args : List String
restart_args = "bee" ∷ "start" ∷ "--config=.bee.yaml" ∷ []

-- Only the command and the image of the container bee differ from the set at the start.
nuked : update_and_rollback busy_kube 5 (nuke_args true false) restart_args "bee:2" bees bees ≡ (
  err pods_failed,
  record bees { containers = side ∷ record bee { command = restart_args; image = "bee:2" } ∷ [] },
)
unfolding update_and_rollback
nuked = refl

-- Without a new image the container keeps its own.
nuked_same_image :
    (update_and_rollback busy_kube 5 (nuke_args true false) restart_args "" bees bees).1
    ≡ record bees { containers = side ∷ record bee { command = restart_args } ∷ [] }
unfolding update_and_rollback
nuked_same_image = refl

-- A cluster that refuses the rollback leaves the set without its readiness probes.
abbrev stuck_kube : Kube
stuck_kube = record {
  gets = λ i. true;
  updates = λ i. elim i [ zero ↦ updated | suc j ↦ fails ];
  pods_complete = true;
}

stuck_without_probes :
    (update_and_rollback stuck_kube 5 (nuke_args true false) restart_args "" bees bees).1
    ≡ record bees {
      update_strategy = on_delete;
      containers =
          record side { readiness_probe = none }
          ∷ record bee { command = nuke_args true false; readiness_probe = none }
          ∷ [];
    }
unfolding update_and_rollback nuke_args
stuck_without_probes = refl

update_and_rollback-put_back_example :
    (i : ℕ) × (bee_container_index bees.containers ≡ some i)
    × ((update_and_rollback busy_kube 5 (nuke_args true false) restart_args "bee:2" bees bees).1
        ≡ put_back busy_kube 5 (nuke_args true false) restart_args "bee:2" bees i)
unfolding modify update_phase
update_and_rollback-put_back_example =
    update_and_rollback-put_back busy_kube 5 (nuke_args true false) restart_args "bee:2" bees
      ((refl, tt), (tt, tt)) (1, refl) refl

abbrev idle_bees : StatefulSet ℕ ℕ
idle_bees = record bees { name = "bee-1"; replicas = some 0 }

abbrev get_set : String → Found ℕ ℕ
get_set name =
    if str_eq name "bee-0"
    then found bees
    else if str_eq name "bee-1"
    then found idle_bees
    else missing

abbrev quiet_kube : String → Kube
quiet_kube name = record busy_kube { pods_complete = true }

abbrev set_names : List String
set_names = "bee-0" ∷ "bee-7" ∷ "bee-1" ∷ "bee-0" ∷ []

nuke_sets_run :
    nuke_by_stateful_sets quiet_kube 5 (nuke_args true false) restart_args "" get_set set_names ≡ (
      ok tt,
      ("bee-0", record bees { containers = side ∷ record bee { command = restart_args } ∷ [] })
          ∷ ("bee-1", idle_bees)
          ∷ [],
    )
unfolding nuke_by_stateful_sets
nuke_sets_run = refl

abbrev no_set : String → Found ℕ ℕ
no_set name = failed

nuke_sets_failed_run :
    nuke_by_stateful_sets quiet_kube 5 (nuke_args true false) restart_args "" no_set set_names
    ≡ (err get_set_failed, [])
unfolding nuke_by_stateful_sets
nuke_sets_failed_run = refl

nuke_by_stateful_sets-IsDone_example :
    (let out =
        nuke_by_stateful_sets quiet_kube 5
          (nuke_args true false)
          restart_args
          ""
          get_set
          set_names in
      (new : StatefulSet ℕ ℕ) × (lookup "bee-0" out.1 ≡ some new)
      × IsDone quiet_kube 5 (nuke_args true false) restart_args "" "bee-0" bees new)
unfolding nuke_by_stateful_sets
nuke_by_stateful_sets-IsDone_example =
    nuke_by_stateful_sets-IsDone quiet_kube 5 (nuke_args true false) restart_args "" get_set
      set_names "bee-0" bees refl refl refl

abbrev three : String → Option ℕ
three name = some 3

abbrev always : String → Option (StatefulSet ℕ ℕ)
always name = some bees

abbrev same_order : Dict (StatefulSet ℕ ℕ) → Dict (StatefulSet ℕ ℕ)
same_order sets = sets

abbrev second : ℕ → ℕ → ℕ → ℕ
second call i n = 2

-- The neighborhood 2 of the depth 3 is printed without its leading zero.
neighborhood_run :
    (run second 1 true three always same_order quiet_kube 5
      (nuke_args true false)
      ""
      "bees"
      (some ("bee-0-0" ∷ []))
      restart_args).1.sets
    ≡ (
      "bee-0",
      record bees {
        containers =
            side ∷ record bee { command = restart_args ++ "--target-neighborhood=10" ∷ [] } ∷ [];
      },
    )
      ∷ []
unfolding run numbered wrap64 ◌+ℤ◌ ◌-ℤ◌ draw_unused
neighborhood_run = refl

run-IsFair_example :
    IsRun second 1 true three always same_order quiet_kube 5
      (nuke_args true false)
      ""
      (some ("bee-0-0" ∷ []))
      restart_args
      (run second 1 true three always same_order quiet_kube 5
        (nuke_args true false)
        ""
        "bees"
        (some ("bee-0-0" ∷ []))
        restart_args)
run-IsFair_example =
    run-IsFair second 1 true three always same_order quiet_kube 5 (nuke_args true false) "" "bees"
      (some ("bee-0-0" ∷ [])) restart_args
