-- ===== src/Nuker/Run.antt =====
-- `Run` of pkg/nuker/nuker.go with the neighborhoods of pkg/nuker/neighborhood.go. Nodes are their
-- names; what a node's status and a pod's controller are is a parameter, and so is the random source
-- of each call of `GetRandom`.
use beekeeper.Common.{
  ℕ, zero, suc, ◌/◌, ◌%◌, ◌^◌, Bool, true, false, Option, none, some, List, [], ◌∷◌, ◌++◌,
  if◌then◌else◌, String, str_eq, ltb, ◌==◌,
}
use Prim.Native.String.{◌++◌ as str_append}
use beekeeper.Common.Int.{ℤ, pos, ◌-ℤ◌, wrap64, pos_part}
use beekeeper.Common.Outcome.{Outcome, ok, err, panic}
use beekeeper.Common.Dict.{Dict, insert}
use beekeeper.Random.Defs.{
  Source, RandomError, unique_number_exhausted, invalid_range, out_of_draws, get_random,
}
use beekeeper.Setup.Names.{numbered}
use beekeeper.Nuker.Update.{StatefulSet, NukeError, Kube, update_and_rollback}
use beekeeper.Nuker.Sets.{is_idle}

pub data RunError : Type 0 where
  no_namespace no_args no_nodes no_sets : RunError
  no_controlling_set node_not_found status_failed : (node : String) → RunError
  random_failed : RandomError → RunError
  nuke_failed : (set : String) → NukeError → RunError

-- A number in base 2, as `%b` prints it, without leading zeros.
binary_from : ℕ → ℕ → String
binary_from zero n = if n == 0 then "0" else "1"
binary_from (suc fuel) n =
    let digit = if n % 2 == 0 then "0" else "1" in
    let more = str_append (binary_from fuel (n / 2)) digit in if ltb n 2 then digit else more

unfoldable pub neighborhood_arg : ℤ → String
unfolding binary_from
neighborhood_arg val =
    str_append "--target-neighborhood=" (binary_from (pos_part val) (pos_part val))

-- The pods of a set, from number `i` on.
abbrev pub pods_from : String → ℕ → ℕ → List String
pods_from name i zero = []
pods_from name i (suc replicas) = numbered name i ∷ pods_from name (suc i) replicas

-- `nodes.Get`
unfoldable pub has_node : String → List String → Bool
has_node name [] = false
has_node name (n ∷ nodes) = if str_eq n name then true else has_node name nodes

-- The numbers that the unique generator has returned, and the number of its calls.
abbrev pub Drawn : Type 0
Drawn = List ℤ × ℕ

module _ (source : ℕ → Source) (fuel : ℕ) (use_random : Bool) (nodes : List String)
    (status : String → Option ℕ) where
  -- The numbers from 0 to 2 to the radius less 1; a generator without a free one leaves the arguments.
  unfoldable pub get_args : String → List String → Drawn → Outcome RunError (List String) × Drawn
  unfolding has_node get_random neighborhood_arg
  get_args name restart_args (used, calls) =
      if use_random
      then if has_node name nodes
        then elim (status name) [
          | none ↦ (err (status_failed name), (used, calls))
          | some radius ↦
              if radius == 0
              then (ok restart_args, (used, calls))
              else elim (get_random (source calls) fuel 0 (pos 0)
                  (wrap64 (wrap64 (pos (2 ^ radius)) -ℤ pos 1))
                  (record { unique = true; used = used })) [
                    | ok (val, g) ↦
                        (ok (restart_args ++ neighborhood_arg val ∷ []), (g.used, suc calls))
                    | panic ↦ (panic, (used, suc calls))
                    | err e ↦ elim e [
                      | unique_number_exhausted ↦ (ok restart_args, (used, suc calls))
                      | invalid_range ↦ (err (random_failed invalid_range), (used, suc calls))
                      | out_of_draws ↦ (err (random_failed out_of_draws), (used, suc calls))
                    ]
                  ]
        ]
        else (err (node_not_found name), (used, calls))
      else (ok restart_args, (used, calls))

module _ {Probe Settings : Type 0} where
  unfoldable pub get_pod_names : StatefulSet Probe Settings → List String
  get_pod_names ss = elim ss.replicas [ none ↦ [] | some replicas ↦ pods_from ss.name 0 replicas ]

  -- The controlling sets of the nodes, by their names.
  unfoldable pub find_stateful_sets :
      (String → Option (StatefulSet Probe Settings))
      → List String
      → Dict (StatefulSet Probe Settings)
      → Outcome RunError (Dict (StatefulSet Probe Settings))
  unfolding insert
  find_stateful_sets controlling [] sets = ok sets
  find_stateful_sets controlling (node ∷ nodes) sets = elim (controlling node) [
    | none ↦ err (no_controlling_set node)
    | some ss ↦ find_stateful_sets controlling nodes (insert ss.name ss sets)
  ]

module _ (Probe Settings : Type 0) where
  -- The draws so far, and what the cluster holds of each set.
  pub record Progress : Type 0 where
    pub drawn : Drawn
    pub sets : Dict (StatefulSet Probe Settings)

module _ {Probe Settings : Type 0}
    (get : String → List String → Drawn → Outcome RunError (List String) × Drawn)
    (kube : String → Kube) (attempts : ℕ) (update_args restart_args : List String)
    (image : String) where
  -- One set that has replicas; `get` is `get_args`.
  unfoldable pub run_one :
      String
      → StatefulSet Probe Settings
      → Progress Probe Settings
      → Outcome RunError (Unit {0}) × Progress Probe Settings
  unfolding insert get_pod_names update_and_rollback
  run_one name ss p = elim (get_pod_names ss) [
    | [] ↦ (panic, p)
    | first ∷ others ↦
        let (r, drawn) = get first restart_args p.drawn in
        elim r [
          | err e ↦ (err e, record p { drawn = drawn })
          | panic ↦ (panic, record p { drawn = drawn })
          | ok args ↦
              let (out, after) =
                update_and_rollback (kube name) attempts update_args args image ss ss in
              let next = record p { drawn = drawn; sets = insert name after p.sets } in
              elim out [
                | ok _ ↦ (ok tt, next)
                | err e ↦ (err (nuke_failed name e), next)
                | panic ↦ (panic, next)
              ]
        ]
  ]

  unfoldable pub run_each :
      Dict (StatefulSet Probe Settings)
      → Progress Probe Settings
      → Outcome RunError (Unit {0}) × Progress Probe Settings
  unfolding is_idle run_one
  run_each [] p = (ok tt, p)
  run_each ((name, ss) ∷ sets) p =
      let skip = run_each sets p in
      let (r, next) = run_one name ss p in
      elim (is_idle ss) [
        | true ↦ skip
        | false ↦ elim r [
          | ok _ ↦ run_each sets next
          | err e ↦ (err e, next)
          | panic ↦ (panic, next)
        ]
      ]

module _ {Probe Settings : Type 0} (source : ℕ → Source) (fuel : ℕ) (use_random : Bool)
    (status : String → Option ℕ) (controlling : String → Option (StatefulSet Probe Settings))
    (order : Dict (StatefulSet Probe Settings) → Dict (StatefulSet Probe Settings))
    (kube : String → Kube) (attempts : ℕ) (update_args : List String) (image : String) where
  -- `nodes` is what the provider answers, and `order` gives the order of the range over the sets.
  unfoldable pub run :
      String
      → Option (List String)
      → List String
      → Outcome RunError (Unit {0}) × Progress Probe Settings
  unfolding get_args find_stateful_sets run_each
  run namespace nodes restart_args =
      let none_yet : Progress Probe Settings = record { drawn = ([], 0); sets = [] } in
      if str_eq namespace "" then (err no_namespace, none_yet) else elim restart_args [
        | [] ↦ (err no_args, none_yet)
        | arg ∷ args ↦ elim nodes [
          | none ↦ (err no_nodes, none_yet)
          | some names ↦ elim (find_stateful_sets controlling names []) [
            | err e ↦ (err e, none_yet)
            | panic ↦ (panic, none_yet)
            | ok sets ↦ elim sets [
              | [] ↦ (err no_sets, none_yet)
              | s ∷ ss ↦
                  run_each (get_args source fuel use_random names status) kube attempts update_args
                    (arg ∷ args) image (order (s ∷ ss)) (record { drawn = ([], 0); sets = s ∷ ss })
            ]
          ]
        ]
      ]
