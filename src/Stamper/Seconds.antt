-- ===== src/Stamper/Seconds.antt =====
-- `int64(d.Seconds())` for a time.Duration `d` in nanoseconds, as pkg/stamper/node.go computes
-- amounts. `Seconds` adds the whole seconds and the rest in float64, so a rest just below a full
-- second rounds up once the whole seconds need 25 bits or more.
use beekeeper.Common.{
  ℕ, zero, suc, ◌+◌, ◌-◌, ◌*◌, ◌/◌, ◌%◌, ◌^◌, ◌≤◌, ◌<◌, ◌≡◌, arith, if◌then◌else◌, ltb, leb, Bool,
  lt→not-leb, false,
}
use beekeeper.Common.Int.{ℤ, pos, negsuc, sub_ℕ}

abbrev pub second : ℕ
second = 10 ^ 9

-- The largest power of two up to `s`, or 1; `fuel` halvings are enough below 2 ^ fuel.
unfoldable pub high_power : ℕ → ℕ → ℕ
high_power zero s = 1
high_power (suc fuel) s = let rest = high_power fuel (s / 2) in if ltb s 2 then 1 else 2 * rest

-- The sum in float64 of the whole seconds and the rest rounds to the next second exactly when the
-- rest is within half a unit in the last place of it.
unfoldable pub rounds_up : ℕ → ℕ → Bool
unfolding high_power
rounds_up whole rest = leb ((second - rest) * 2 ^ 53) (second * high_power 34 whole)

unfoldable pub whole_seconds : ℕ → ℕ
unfolding rounds_up
whole_seconds d = if rounds_up (d / second) (d % second) then d / second + 1 else d / second

unfoldable pub seconds : ℤ → ℤ
unfolding whole_seconds
seconds (pos d) = pos (whole_seconds d)
seconds (negsuc d) = sub_ℕ 0 (whole_seconds (suc d))

high_power-le : (fuel s b : ℕ) → s ≤ b → 1 ≤ b → high_power fuel s ≤ b
unfolding high_power
high_power-le zero s b h k = k
high_power-le (suc fuel) s b h k = ground (arith, high_power-le fuel (s / 2) (b / 2))

no_rounding : (whole rest : ℕ) → whole < 2 ^ 23 → rest < second → rounds_up whole rest ≡ false
unfolding rounds_up
no_rounding whole rest h k =
    let p : high_power 34 whole ≤ 2 ^ 23 =
      high_power-le 34 whole (2 ^ 23) (omega arith) (omega arith) in
    lt→not-leb ((second - rest) * 2 ^ 53) (second * high_power 34 whole) (omega arith)

pub whole_seconds-bounds :
    (d : ℕ) → (d / second ≤ whole_seconds d) × (whole_seconds d ≤ d / second + 1)
unfolding whole_seconds
whole_seconds-bounds d = ground arith

-- Up to 97 days the rounding plays no part: the result is the number of whole seconds.
pub whole_seconds-exact : (d : ℕ) → d < 2 ^ 23 * second → whole_seconds d ≡ d / second
unfolding whole_seconds
whole_seconds-exact d h =
    rw (no_rounding (d / second) (d % second) (omega arith) (omega arith), whole_seconds)
