-- ===== src/Examples/Networks.antt =====
-- The neighborhoods of a storage radius (pkg/check/networkavailability) at concrete inputs.
use beekeeper.Common.{ℕ, ◌^◌, ◌≡◌, refl, List, [], ◌∷◌, map, arith}
use beekeeper.Common.Outcome.{ok, panic}
use beekeeper.Network.Neighborhoods.{neighborhood, neighborhoods}
use beekeeper.Network.Prefixes.{prefix_number}
use beekeeper.Network.All.{range, neighborhoods-prefixes}

-- Number 516 of 10 bits: the second byte holds the two highest bits.
ten_bits : neighborhood 4 10 516 ≡ ok (4 ∷ 128 ∷ 0 ∷ 0 ∷ [])
unfolding neighborhood
ten_bits = refl

-- Beyond 32 bits there is no byte to shift.
too_many_bits : neighborhood 4 33 0 ≡ panic
unfolding neighborhood
too_many_bits = refl

neighborhoods-prefixes_example :
    (addrs : List (List ℕ)) × (neighborhoods 32 10 ≡ ok addrs)
    × (map (prefix_number 10) addrs ≡ range 0 (2 ^ 10))
neighborhoods-prefixes_example = neighborhoods-prefixes 32 10 (omega arith) (omega arith)
