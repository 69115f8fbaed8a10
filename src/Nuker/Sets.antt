-- ===== src/Nuker/Sets.antt =====
-- `NukeByStatefulSets` of pkg/nuker/nuker.go.
use beekeeper.Common.{
  ℕ, zero, suc, ◌≡◌, refl, Bool, true, false, Option, none, some, List, [], ◌∷◌, ◌++◌, arith,
  if◌then◌else◌, String, str_eq, eq_iff,
}
use beekeeper.Common.Outcome.{Outcome, ok, err, panic}
use beekeeper.Common.Dict.{Dict, lookup, insert, lookup-insert}
use beekeeper.Nuker.Update.{StatefulSet, NukeError, Kube, update_and_rollback}

pub data NukeSetsError : Type 0 where
  no_names get_set_failed : NukeSetsError
  nuke_failed : String → NukeError → NukeSetsError

-- Whether a list has the name.
abbrev pub occurs : String → List String → Bool
occurs name [] = false
occurs name (n ∷ names) = if str_eq n name then true else occurs name names

module _ (Probe Settings : Type 0) where
  -- What the API answers to the get of a stateful set.
  pub data Found : Type 0 where
    found : StatefulSet Probe Settings → Found
    missing failed : Found

  -- The sets that were found, and their names in the order of the first mention.
  abbrev pub Collected : Type 0
  Collected = Dict (StatefulSet Probe Settings) × List String

module _ {Probe Settings : Type 0} where
  unfoldable pub collect :
      (String → Found Probe Settings)
      → List String
      → Collected Probe Settings
      → Outcome NukeSetsError (Collected Probe Settings)
  unfolding lookup insert
  collect get [] (sets, ordered) = ok (sets, ordered)
  collect get (name ∷ names) (sets, ordered) =
      let skip = collect get names (sets, ordered) in
      elim (lookup name sets) [
        | some _ ↦ skip
        | none ↦ elim (get name) [
          | missing ↦ skip
          | failed ↦ err get_set_failed
          | found ss ↦ collect get names (insert name ss sets, ordered ++ name ∷ [])
        ]
      ]

  -- Whether a set has no replicas, so that it is skipped.
  unfoldable pub is_idle : StatefulSet Probe Settings → Bool
  is_idle ss = elim ss.replicas [ none ↦ true | some n ↦ elim n [ zero ↦ true | suc _ ↦ false ] ]

  module _ (kube : String → Kube) (attempts : ℕ) (update_args restart_args : List String)
      (image : String) where
    -- The loop over the sets, with what the cluster holds of each set after it.
    unfoldable pub nuke_each :
        List String
        → Dict (StatefulSet Probe Settings)
        → Outcome NukeSetsError (Unit {0}) × Dict (StatefulSet Probe Settings)
    unfolding lookup insert is_idle update_and_rollback
    nuke_each [] sets = (ok tt, sets)
    nuke_each (name ∷ names) sets = elim (lookup name sets) [
      | none ↦ (panic, sets)
      | some ss ↦
          let skip = nuke_each names sets in
          let (r, after) =
            update_and_rollback (kube name) attempts update_args restart_args image ss ss in
          let next = nuke_each names (insert name after sets) in
          if is_idle ss then skip else elim r [
            | ok _ ↦ next
            | err e ↦ (err (nuke_failed name e), insert name after sets)
            | panic ↦ (panic, insert name after sets)
          ]
    ]

    unfoldable pub nuke_by_stateful_sets :
        (String → Found Probe Settings)
        → List String
        → Outcome NukeSetsError (Unit {0}) × Dict (StatefulSet Probe Settings)
    unfolding collect nuke_each
    nuke_by_stateful_sets get [] = (err no_names, [])
    nuke_by_stateful_sets get (name ∷ names) = elim (collect get (name ∷ names) ([], [])) [
      | ok c ↦ nuke_each c.1 c.0
      | err e ↦ (err e, [])
      | panic ↦ (panic, [])
    ]

  -- The set that a get finds.
  abbrev pub set_of : Found Probe Settings → Option (StatefulSet Probe Settings)
  set_of (found ss) = some ss
  set_of missing = none
  set_of failed = none

  module _ (get : String → Found Probe Settings) where
    abbrev wanted :
        List String
        → Dict (StatefulSet Probe Settings)
        → String
        → Option (StatefulSet Probe Settings)
    wanted names sets name = elim (lookup name sets) [
      | some ss ↦ some ss
      | none ↦ if occurs name names then set_of (get name) else none
    ]

    collect-wanted :
        (names : List String) (sets : Dict (StatefulSet Probe Settings)) (ordered : List String)
        (out : Collected Probe Settings)
        → collect get names (sets, ordered) ≡ ok out
        → (name : String) → lookup name out.0 ≡ wanted names sets name
    unfolding collect
    collect-wanted [] sets ordered out h name =
        let same : sets ≡ out.0 = cc in rw⁻¹ same (ground arith)
    collect-wanted (n ∷ names) sets ordered out h name =
        step (λ s o g. collect-wanted names s o out g name) (lookup n sets) refl (get n) refl
      where
        step :
            ((s : Dict (StatefulSet Probe Settings)) (o : List String)
              → collect get names (s, o) ≡ ok out
              → lookup name out.0 ≡ wanted names s name)
            → (o : Option (StatefulSet Probe Settings)) → lookup n sets ≡ o
            → (f : Found Probe Settings) → get n ≡ f
            → lookup name out.0 ≡ wanted (n ∷ names) sets name
        step rest (some s) e f q =
            let h' = rw (collect, e) at h in
            let r = rest sets ordered h' in ground (arith, eq_iff n name)
        step rest none e missing q =
            let h' = rw (collect, e, q) at h in
            let r = rest sets ordered h' in ground (arith, eq_iff n name)
        step rest none e failed q = let h' = rw (collect, e, q) at h in cc
        step rest none e (found ss) q =
            let h' = rw (collect, e, q) at h in
            let r = rest (insert n ss sets) (ordered ++ n ∷ []) h' in
            let inserted = lookup-insert n name ss sets in ground (arith, eq_iff n name)

    -- When no get fails, the sets that are collected are those that the cluster has under the names.
    pub collect-lookup :
        (names : List String) (out : Collected Probe Settings)
        → collect get names ([], []) ≡ ok out
        → (name : String)
        → lookup name out.0 ≡ (if occurs name names then set_of (get name) else none)
    unfolding lookup
    collect-lookup names out h name = collect-wanted names [] [] out h name
