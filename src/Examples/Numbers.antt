-- ===== src/Examples/Numbers.antt =====
-- Runs of `GetRandom` (pkg/random/random.go) with a source that counts.
use beekeeper.Common.{ℕ, zero, suc, ◌%◌, ◌≤◌, ◌<◌, ◌≡◌, refl, ◌⊎◌, arith, true, false, [], ◌∷◌}
use native.Mathlib.Nat.{mod-lt}
use beekeeper.Common.Int.{ℤ, pos, negsuc, leb_ℤ, wrap64, ◌+ℤ◌, ◌-ℤ◌}
use beekeeper.Common.Outcome.{ok}
use beekeeper.Random.Defs.{Generator, Source, is_used, get_random, span, draw_unused}
use beekeeper.Random.Range.{magnitude, get_random-between}
use beekeeper.Random.Unique.{IsDistinct, get_random-IsDistinct}
use beekeeper.Random.Draws.{IsFair, get_random-returns}

abbrev counting : Source
counting i n = i % n

abbrev one_used : Generator
one_used = record { unique = true; used = pos 5 ∷ [] }

abbrev two_used : Generator
two_used = record { unique = true; used = pos 6 ∷ pos 5 ∷ [] }

abbrev all_used : Generator
all_used = record { unique = true; used = pos 7 ∷ pos 6 ∷ pos 5 ∷ [] }

-- Of the range from 5 to 7 the first draw is 5, which is used, the second 6.
draw_run : get_random counting 3 0 (pos 7) (negsuc 4) one_used ≡ ok (pos 6, two_used)
unfolding get_random wrap64 ◌+ℤ◌ ◌-ℤ◌ draw_unused
draw_run = refl

bounded : (i n : ℕ) → 0 < n → counting i n < n
bounded i n h = mod-lt i h

get_random-between_example :
    (c : ℕ) × (pos 6 ≡ pos c)
    × ((magnitude (pos 7) ≤ c) × (c ≤ magnitude (negsuc 4))
        ⊎ (magnitude (negsuc 4) ≤ c) × (c ≤ magnitude (pos 7)))
get_random-between_example =
    get_random-between counting 3 0 (pos 7) (negsuc 4) one_used two_used (pos 6) bounded
      (omega arith, omega arith) (omega arith, omega arith) (λ e. cc) (λ e. ground arith) draw_run

fresh : is_used (pos 5) [] ≡ false
unfolding is_used
fresh = refl

get_random-IsDistinct_example :
    (is_used (pos 6) (pos 5 ∷ []) ≡ false)
    × (two_used.used ≡ pos 6 ∷ one_used.used)
    × IsDistinct two_used.used
get_random-IsDistinct_example =
    get_random-IsDistinct counting 3 0 (pos 7) (negsuc 4) one_used two_used (pos 6) refl (fresh, tt)
      draw_run

span_run : span (pos 5) (pos 7) ≡ pos 3
unfolding span wrap64 ◌+ℤ◌ ◌-ℤ◌
span_run = refl

-- Every number of the range stands among the next three draws.
fair : IsFair counting 3 0 3
fair zero h = (0, omega arith, omega arith, refl)
fair (suc zero) h = (1, omega arith, omega arith, refl)
fair (suc (suc zero)) h = (2, omega arith, omega arith, refl)
fair (suc (suc (suc r))) h = absurd (omega arith)

valid_range : leb_ℤ (span (pos 5) (pos 7)) (pos 0) ≡ false
unfolding span wrap64 ◌+ℤ◌ ◌-ℤ◌
valid_range = refl

get_random-returns_example :
    (code : ℤ) × (g' : Generator) × (get_random counting 3 0 (pos 5) (pos 7) one_used
      ≡ ok (code, g'))
get_random-returns_example =
    get_random-returns counting 3 0 (pos 5) (pos 7) one_used bounded (omega arith, omega arith)
      (omega arith, omega arith) refl valid_range (rw span_run (omega arith)) (rw span_run fair)
