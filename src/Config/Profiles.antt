-- ===== src/Config/Profiles.antt =====
-- `mergeConfigs` of pkg/config/config.go. A profile is a struct of pointers (BeeConfig, NodeGroup,
-- Cluster): the name of the parent it inherits from, "" for none, and its pointer fields in order.
use beekeeper.Common.{
  ℕ, zero, suc, ◌+◌, Bool, true, false, Option, none, some, List, [], ◌∷◌, if◌then◌else◌, String,
  str_eq, length,
}
use beekeeper.Common.Outcome.{Outcome, ok, err, panic}
use beekeeper.Common.Dict.{Dict, lookup, insert, keys}

pub record Profile (V : Type 0) : Type 0 where
  pub parent_name : String
  pub fields : List (Option V)

-- `out_of_fuel` is not an error of the code: `merge_configs-ne-out_of_fuel` excludes it.
pub data MergeError : Type 0 where
  circular missing : String → MergeError
  out_of_fuel : MergeError

module _ {V : Type 0} where
  -- The loop over the struct's fields: a nil field takes the parent's.
  unfoldable pub merge_fields : List (Option V) → List (Option V) → List (Option V)
  merge_fields (p ∷ ps) (none ∷ ms) = p ∷ merge_fields ps ms
  merge_fields (p ∷ ps) (some v ∷ ms) = some v ∷ merge_fields ps ms
  merge_fields [] ms = ms
  merge_fields (p ∷ ps) [] = []

  unfoldable pub inherit : Profile V → Profile V → Profile V
  inherit parent v = record v { fields = merge_fields parent.fields v.fields }

-- `visited[name]`, and `delete(visited, name)`.
unfoldable pub is_visited : String → List String → Bool
is_visited name [] = false
is_visited name (x ∷ xs) = if str_eq x name then true else is_visited name xs

unfoldable pub unvisit : String → List String → List String
unvisit name [] = []
unvisit name (x ∷ xs) = let rest = unvisit name xs in if str_eq x name then rest else x ∷ rest

-- What the closure `mergeParent` shares between its calls.
pub record Merging (V : Type 0) : Type 0 where
  pub merged : Dict (Profile V)
  pub visited : List String

module _ {V : Type 0} (configs : Dict (Profile V)) where
  -- `mergedConfigs[name] = v; delete(visited, name)`
  unfoldable pub finish :
      String → Profile V → Merging V → Outcome MergeError (Profile V × Merging V)
  finish name v s =
      ok (v, record { merged = insert name v s.merged; visited = unvisit name s.visited })

  -- One call of `mergeParent`, with the recursive call handed in.
  unfoldable pub merge_step :
      (String → Merging V → Outcome MergeError (Profile V × Merging V))
      → String
      → Merging V
      → Outcome MergeError (Profile V × Merging V)
  unfolding finish
  merge_step parent name s = elim (lookup name s.merged) [
    | some done ↦ ok (done, s)
    | none ↦ elim (is_visited name s.visited) [
      | true ↦ err (circular name)
      | false ↦ elim (lookup name configs) [
        | none ↦ err (missing name)
        | some v ↦
            let s' : Merging V = record s { visited = name ∷ s.visited } in
            elim (str_eq v.parent_name "") [
              | true ↦ finish name v s'
              | false ↦ elim (parent v.parent_name s') [
                | ok (p, s'') ↦ finish name (inherit p v) s''
                | err e ↦ err e
                | panic ↦ panic
              ]
            ]
      ]
    ]
  ]

  unfoldable pub merge_parent : ℕ → String → Merging V → Outcome MergeError (Profile V × Merging V)
  merge_parent zero name s = err out_of_fuel
  merge_parent (suc fuel) name s = merge_step (merge_parent fuel) name s

  -- `for name := range configs`, in the order of the list.
  unfoldable pub merge_names : ℕ → List String → Merging V → Outcome MergeError (Merging V)
  merge_names fuel [] s = ok s
  merge_names fuel (name ∷ names) s = elim (merge_parent fuel name s) [
    | ok (_, s') ↦ merge_names fuel names s'
    | err e ↦ err e
    | panic ↦ panic
  ]

  -- A call descends at most once into each name of `configs`.
  unfoldable pub merge_configs : Outcome MergeError (Dict (Profile V))
  merge_configs =
      elim (merge_names (length configs + 1) (keys configs)
        (record { merged = []; visited = [] })) [
          | ok s ↦ ok s.merged
          | err e ↦ err e
          | panic ↦ panic
        ]
