-- ===== src/Config/Inherit.antt =====
-- What a profile takes from its parent (the loop over the fields in pkg/config/config.go).
use beekeeper.Common.{
  ℕ, zero, suc, ◌≡◌, refl, Option, none, some, List, [], ◌∷◌, arith, length, get_elem?,
}
use beekeeper.Config.Profiles.{Profile, merge_fields, inherit}

module _ {V : Type 0} where
  -- A field as it is after the merge, from the parent's and the profile's own.
  abbrev pub set_or : Option (Option V) → Option (Option V) → Option (Option V)
  set_or parent (some (some v)) = some (some v)
  set_or parent (some none) = parent
  set_or parent none = none

  merge_fields-get_elem? :
      (ps ms : List (Option V)) (i : ℕ)
      → length ps ≡ length ms
      → get_elem? (merge_fields ps ms) i ≡ set_or (get_elem? ps i) (get_elem? ms i)
  unfolding merge_fields
  merge_fields-get_elem? [] [] i h = refl
  merge_fields-get_elem? [] (m ∷ ms) i h = absurd (omega arith)
  merge_fields-get_elem? (p ∷ ps) [] i h = refl
  merge_fields-get_elem? (p ∷ ps) (none ∷ ms) zero h = refl
  merge_fields-get_elem? (p ∷ ps) (some v ∷ ms) zero h = refl
  merge_fields-get_elem? (p ∷ ps) (none ∷ ms) (suc i) h =
      merge_fields-get_elem? ps ms i (omega arith)
  merge_fields-get_elem? (p ∷ ps) (some v ∷ ms) (suc i) h =
      merge_fields-get_elem? ps ms i (omega arith)

  -- Of two profiles of one struct type, the one that inherits keeps its parent's name and each of
  -- its fields that is set, and takes every other field from the parent, set there or not.
  pub inherit-fields :
      (parent v : Profile V)
      → length parent.fields ≡ length v.fields
      → ((inherit parent v).parent_name ≡ v.parent_name)
        × ((i : ℕ)
            → get_elem? (inherit parent v).fields i
              ≡ set_or (get_elem? parent.fields i) (get_elem? v.fields i))
  unfolding inherit
  inherit-fields parent v h = (refl, λ i. merge_fields-get_elem? parent.fields v.fields i h)
