-- ===== src/Nodes/Named.antt =====
-- The named node that `ClosestNodeFromMap` of pkg/bee/chunk.go finds is a nearest one of those that
-- are not skipped.
use beekeeper.Common.{
  ℕ, ◌≤◌, ◌≡◌, refl, ◌⊎◌, inl, inr, Bool, true, false, List, [], ◌∷◌, arith, String, In, Bool-cases,
  ltb,
}
use beekeeper.Common.Int.{ℤ, pos, eqb_ℤ}
use beekeeper.Common.Outcome.{Outcome, ok, err}
use beekeeper.Common.Dict.{Dict}
use beekeeper.Nodes.Closest.{
  ClosestError, not_found, is_skipped, closest_entry, closest_node_from_map,
}
use beekeeper.Nodes.Nearest.{Compares, sign}

closer_sign : (x y : ℕ) → eqb_ℤ (sign x y) (pos 1) ≡ ltb x y
closer_sign x y = ground arith

module _ {A : Type 0} (distance_cmp : A → A → A → Outcome ClosestError ℤ) (distance : A → A → ℕ)
    (compares : Compares distance_cmp distance) (equal : A → A → Bool) (is_zero : A → Bool)
    (address zero_address : A) (skips : List A) where
  -- A node of the map that is not skipped.
  abbrev pub IsCandidate : Dict A → String × A → Type 0
  IsCandidate nodes e =
      In e nodes × (is_skipped distance_cmp equal is_zero address zero_address e.1 skips ≡ false)

  abbrev pub HasAddresses : Dict A → Type 0
  HasAddresses nodes = (e : String × A) → In e nodes → is_zero e.1 ≡ false

  search : String × A → Dict A → Outcome ClosestError (String × A)
  search = closest_entry distance_cmp equal is_zero address zero_address skips

  IsNearest : String × A → Dict A → Outcome ClosestError (String × A) → Type 0
  IsNearest e nodes r =
      (f : String × A) × (r ≡ ok f)
      × ((f ≡ e) ⊎ IsCandidate nodes f)
      × (distance address f.1 ≤ distance address e.1)
      × ((g : String × A) → IsCandidate nodes g → distance address f.1 ≤ distance address g.1)

  -- With an address found already.
  search-IsNearest :
      (e : String × A) (nodes : Dict A)
      → is_zero e.1 ≡ false
      → HasAddresses nodes
      → IsNearest e nodes (search e nodes)
  unfolding search closest_entry IsNearest
  search-IsNearest e [] z h = (e, refl, inl refl, omega arith, (λ g i. absurd i.0))
  search-IsNearest e ((k, a) ∷ nodes) z h =
      elim (Bool-cases (is_skipped distance_cmp equal is_zero address zero_address a skips)) [
        | inl s ↦
            let (f, q, i, m, n) = search-IsNearest e nodes z (λ g j. h g (inr j)) in
            (
              f,
              rw (s, closest_entry) q,
              elim i [ inl p ↦ inl p | inr (j, u) ↦ inr (inr j, u) ],
              m,
              λ g (j, u). elim j [ inl p ↦ absurd (skipped k a s g p u) | inr l ↦ n g (l, u) ],
            )
        | inr s ↦ elim (Bool-cases (ltb (distance address a) (distance address e.1))) [
          | inl l ↦
              let (f, q, i, m, n) =
                search-IsNearest (k, a) nodes (h (k, a) (inl refl)) (λ g j. h g (inr j)) in
              (
                f,
                rw (s, z, compares address a e.1, l, closest_entry) q,
                elim i [ inl p ↦ inr (inl p, rw p s) | inr (j, u) ↦ inr (inr j, u) ],
                ground arith,
                λ g (j, u). elim j [ inl p ↦ rw p m | inr x ↦ n g (x, u) ],
              )
          | inr l ↦
              let (f, q, i, m, n) = search-IsNearest e nodes z (λ g j. h g (inr j)) in
              (
                f,
                rw
                    (
                      s,
                      z,
                      compares address a e.1,
                      closer_sign (distance address a) (distance address e.1),
                      l,
                      closest_entry,
                    )
                    q,
                elim i [ inl p ↦ inl p | inr (j, u) ↦ inr (inr j, u) ],
                m,
                λ g (j, u). elim j [ inl p ↦ rw p (ground arith) | inr x ↦ n g (x, u) ],
              )
        ]
      ]
    where
      skipped :
          (k : String) (a : A)
          → is_skipped distance_cmp equal is_zero address zero_address a skips ≡ true
          → (g : String × A) → g ≡ (k, a)
          → is_skipped distance_cmp equal is_zero address zero_address g.1 skips ≡ false
          → ⊥
      skipped k a s g p u = let u' = rw p at u in ground arith

  Answer : Dict A → Outcome ClosestError (String × A) → Type 0
  Answer nodes r =
      ((f : String × A) × (r ≡ ok f)
        × IsCandidate nodes f
        × ((g : String × A) → IsCandidate nodes g → distance address f.1 ≤ distance address g.1))
      ⊎ ((r ≡ ok ("", zero_address)) × ((g : String × A) → IsCandidate nodes g → ⊥))

  -- From the zero address the first node that is not skipped is taken.
  search-Answer :
      (nodes : Dict A)
      → is_zero zero_address ≡ true
      → HasAddresses nodes
      → Answer nodes (search ("", zero_address) nodes)
  unfolding search closest_entry Answer IsNearest
  search-Answer [] z h = inr (refl, λ g i. i.0)
  search-Answer ((k, a) ∷ nodes) z h =
      elim (Bool-cases (is_skipped distance_cmp equal is_zero address zero_address a skips)) [
        | inl s ↦ elim (search-Answer nodes z (λ g j. h g (inr j))) [
          | inl (f, q, (j, u), n) ↦ inl (
            f,
            rw (s, closest_entry) q,
            (inr j, u),
            λ g (i, v). elim i [ inl p ↦ absurd (skipped s g p v) | inr x ↦ n g (x, v) ],
          )
          | inr (q, n) ↦ inr (
            rw (s, closest_entry) q,
            λ g (i, v). elim i [ inl p ↦ skipped s g p v | inr x ↦ n g (x, v) ],
          )
        ]
        | inr s ↦
            let (f, q, i, m, n) =
              search-IsNearest (k, a) nodes (h (k, a) (inl refl)) (λ g j. h g (inr j)) in
            inl (
              f,
              rw (s, z, closest_entry) q,
              elim i [ inl p ↦ (inl p, rw p s) | inr (j, u) ↦ (inr j, u) ],
              λ g (i', v). elim i' [ inl p ↦ rw p m | inr x ↦ n g (x, v) ],
            )
      ]
    where
      skipped :
          is_skipped distance_cmp equal is_zero address zero_address a skips ≡ true
          → (g : String × A) → g ≡ (k, a)
          → is_skipped distance_cmp equal is_zero address zero_address g.1 skips ≡ false
          → ⊥
      skipped s g p u = let u' = rw p at u in ground arith

  -- `ClosestNodeFromMap` of nodes that have addresses returns one that is not skipped and that no
  -- other of those is closer than, or reports that there is none when all are skipped, if
  -- `DistanceCmp` compares distances.
  pub closest_node_from_map-nearest :
      (nodes : Dict A)
      → is_zero zero_address ≡ true
      → HasAddresses nodes
      → ((f : String × A) × (closest_node_from_map distance_cmp equal is_zero address zero_address
              nodes skips
            ≡ ok f)
          × IsCandidate nodes f
          × ((g : String × A) → IsCandidate nodes g → distance address f.1 ≤ distance address g.1))
        ⊎ ((closest_node_from_map distance_cmp equal is_zero address zero_address nodes skips
              ≡ err not_found)
            × ((g : String × A) → IsCandidate nodes g → ⊥))
  unfolding search closest_node_from_map Answer
  closest_node_from_map-nearest nodes z h = elim (search-Answer nodes z h) [
    | inl (f, q, i, n) ↦ inl (f, rw (closest_node_from_map, q, h f i.0) refl, i, n)
    | inr (q, n) ↦ inr (rw (closest_node_from_map, q, z) refl, n)
  ]
