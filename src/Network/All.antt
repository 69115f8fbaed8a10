-- ===== src/Network/All.antt =====
-- All neighborhoods that pkg/check/networkavailability/check.go uploads to.
use beekeeper.Common.{ℕ, zero, suc, ◌+◌, ◌^◌, ◌≤◌, ◌≡◌, refl, List, [], ◌∷◌, map, arith, ap, ◌∙◌}
use beekeeper.Common.Outcome.{ok}
use beekeeper.Network.Neighborhoods.{neighborhoods_from, neighborhoods}
use beekeeper.Network.Prefixes.{prefix_number, prefix_number-neighborhood}

-- The numbers from `i` on.
abbrev pub range : ℕ → ℕ → List ℕ
range i zero = []
range i (suc count) = i ∷ range (suc i) count

module _ (hash_size bits : ℕ) (4≤size : 4 ≤ hash_size) (bits≤32 : bits ≤ 32) where
  neighborhoods_from-prefixes :
      (count i : ℕ)
      → i + count ≤ 2 ^ bits
      → (addrs : List (List ℕ)) × (neighborhoods_from hash_size bits i count ≡ ok addrs)
        × (map (prefix_number bits) addrs ≡ range i count)
  unfolding neighborhoods_from
  neighborhoods_from-prefixes zero i h = ([], refl, refl)
  neighborhoods_from-prefixes (suc count) i h =
      let (a, e, n) =
        prefix_number-neighborhood hash_size bits i 4≤size bits≤32 (omega (arith, h)) in
      let (addrs, rest, ns) = neighborhoods_from-prefixes count (suc i) (omega (arith, h)) in
      (
        a ∷ addrs,
        rw (neighborhoods_from, e, rest) refl,
        ap (λ x. x ∷ map (prefix_number bits) addrs) n ∙ ap (λ l. i ∷ l) ns,
      )

  -- For 32 bits at most the addresses are one for each neighborhood of that many bits: the numbers
  -- that their first bits make are those below 2 to the power of the bits, each of them once.
  pub neighborhoods-prefixes :
      (addrs : List (List ℕ)) × (neighborhoods hash_size bits ≡ ok addrs)
      × (map (prefix_number bits) addrs ≡ range 0 (2 ^ bits))
  unfolding neighborhoods
  neighborhoods-prefixes = neighborhoods_from-prefixes (2 ^ bits) 0 (omega arith)
