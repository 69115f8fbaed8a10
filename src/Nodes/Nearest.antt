-- ===== src/Nodes/Nearest.antt =====
-- The node that the searches of pkg/bee/chunk.go and pkg/bee/file.go find is a nearest one.
use beekeeper.Common.{
  ℕ, ◌≤◌, ◌≡◌, refl, ◌⊎◌, inl, inr, List, [], ◌∷◌, arith, if◌then◌else◌, In, Bool-cases, ltb,
}
use beekeeper.Common.Int.{ℤ, pos, negsuc}
use beekeeper.Common.Outcome.{Outcome, ok}
use beekeeper.Nodes.Closest.{ClosestError, closest_from, closest_node}

-- The comparison of two distances to `x`: 1 says that `a` is closer, -1 that `b` is.
abbrev pub sign : ℕ → ℕ → ℤ
sign a b = if ltb a b then pos 1 else if ltb b a then negsuc 0 else pos 0

-- `swarm.DistanceCmp` of addresses of one length compares their distances to the first.
abbrev pub Compares : {A : Type 0} → (A → A → A → Outcome ClosestError ℤ) → (A → A → ℕ) → Type 0
Compares {A} distance_cmp distance =
    (x a b : A) → distance_cmp x a b ≡ ok (sign (distance x a) (distance x b))

module _ {A : Type 0} (distance_cmp : A → A → A → Outcome ClosestError ℤ) (distance : A → A → ℕ)
    (compares : Compares distance_cmp distance) (address : A) where
  IsNearest : A → List A → Outcome ClosestError A → Type 0
  IsNearest first nodes r =
      (c : A) × (r ≡ ok c)
      × ((c ≡ first) ⊎ In c nodes)
      × (distance address c ≤ distance address first)
      × ((a : A) → In a nodes → distance address c ≤ distance address a)

  closest_from-IsNearest :
      (first : A) (nodes : List A)
      → IsNearest first nodes (closest_from distance_cmp address first nodes)
  unfolding closest_from IsNearest
  closest_from-IsNearest first [] = (first, refl, inl refl, omega arith, (λ a i. absurd i))
  closest_from-IsNearest first (b ∷ nodes) =
      elim (Bool-cases (ltb (distance address b) (distance address first))) [
        | inl l ↦
            let (c, e, i, m, n) = closest_from-IsNearest b nodes in
            (
              c,
              rw (compares address first b) (ground arith),
              inr i,
              ground arith,
              λ a j. elim j [ inl q ↦ rw q m | inr k ↦ n a k ],
            )
        | inr l ↦
            let (c, e, i, m, n) = closest_from-IsNearest first nodes in
            (
              c,
              rw (compares address first b) (ground arith),
              elim i [ inl q ↦ inl q | inr k ↦ inr (inr k) ],
              m,
              λ a j. elim j [ inl q ↦ rw q (ground arith) | inr k ↦ n a k ],
            )
      ]

  -- `ClosestNode` of a list with a node in it returns a node of the list that no other is closer
  -- than, if `DistanceCmp` compares distances.
  pub closest_node-IsNearest :
      (first : A) (nodes : List A)
      → (c : A) × (closest_node distance_cmp address (first ∷ nodes) ≡ ok c)
        × In c (first ∷ nodes)
        × ((a : A) → In a (first ∷ nodes) → distance address c ≤ distance address a)
  unfolding closest_node IsNearest
  closest_node-IsNearest first nodes =
      let (c, e, i, m, n) = closest_from-IsNearest first nodes in
      (c, e, i, λ a j. elim j [ inl q ↦ rw q m | inr k ↦ n a k ])
