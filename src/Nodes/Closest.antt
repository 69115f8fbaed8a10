-- ===== src/Nodes/Closest.antt =====
-- `ClosestNode` of pkg/bee/chunk.go and pkg/bee/file.go, and `ClosestNodeFromMap`. An address is of
-- the package swarm, which gives `DistanceCmp`, `Equal` and `IsZero`: parameters.
use beekeeper.Common.{Bool, false, ◌||◌, List, [], ◌∷◌, if◌then◌else◌, String}
use beekeeper.Common.Int.{ℤ, pos, negsuc, eqb_ℤ}
use beekeeper.Common.Outcome.{Outcome, ok, err, panic, ◌>>=◌}
use beekeeper.Common.Dict.{Dict}

pub data ClosestError : Type 0 where
  find_closest_node not_found : ClosestError

module _ {A : Type 0} (distance_cmp : A → A → A → Outcome ClosestError ℤ) (address : A) where
  -- The loop over `nodes[1:]`: -1 says that `a` is closer than the closest so far.
  unfoldable pub closest_from : A → List A → Outcome ClosestError A
  closest_from closest [] = ok closest
  closest_from closest (a ∷ nodes) = distance_cmp address closest a >>= λ dcmp.
      closest_from (if eqb_ℤ dcmp (negsuc 0) then a else closest) nodes

  -- `nodes[0]` is out of range in an empty list.
  unfoldable pub closest_node : List A → Outcome ClosestError A
  unfolding closest_from
  closest_node [] = panic
  closest_node (a ∷ nodes) = closest_from a nodes

module _ {A : Type 0} (distance_cmp : A → A → A → Outcome ClosestError ℤ) (equal : A → A → Bool)
    (is_zero : A → Bool) (address zero_address : A) where
  unfoldable pub is_skipped : A → List A → Bool
  is_skipped a [] = false
  is_skipped a (skip ∷ skips) = equal a skip || is_skipped a skips

  -- The loop, with the closest name and address so far.
  unfoldable pub closest_entry : List A → String × A → Dict A → Outcome ClosestError (String × A)
  unfolding is_skipped
  closest_entry skips (name, closest) [] = ok (name, closest)
  closest_entry skips (name, closest) ((k, a) ∷ nodes) =
      let passed = closest_entry skips (name, closest) nodes in
      let taken = closest_entry skips (k, a) nodes in
      if is_skipped a skips
      then passed
      else if is_zero closest
      then taken
      else (distance_cmp address a closest >>= λ dcmp.
          (if eqb_ℤ dcmp (pos 1) then taken else passed))

  unfoldable pub closest_node_from_map : Dict A → List A → Outcome ClosestError (String × A)
  unfolding closest_entry
  closest_node_from_map nodes skips = closest_entry skips ("", zero_address) nodes >>= λ found.
      (if is_zero found.1 then err not_found else ok found)
