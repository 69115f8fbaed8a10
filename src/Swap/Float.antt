-- ===== src/Swap/Float.antt =====
-- The float64 arithmetic of `FetchBlockTime` (pkg/swap/block.go) on integers: conversion to 53 bits,
-- half to even, a division rounded the same way, and `math.Round`.
use beekeeper.Common.{
  ℕ, zero, suc, ◌+◌, ◌*◌, ◌/◌, ◌%◌, ◌^◌, ◌≤◌, ◌<◌, ◌≡◌, refl, ◌⊎◌, inl, inr, arith, ltb, ◌==◌,
  if◌then◌else◌,
}
use beekeeper.Common.Int.{ℤ, pos, negsuc, sub_ℕ}
use native.Mathlib.Nat.{div-add-mod, mod-lt}

-- The integer nearest to a / b, half to even.
unfoldable pub half_even : ℕ → ℕ → ℕ
half_even a b =
    if ltb (2 * (a % b)) b
    then a / b
    else if ltb b (2 * (a % b))
    then a / b + 1
    else a / b + a / b % 2

-- The distance between the float64 values around n < 2^64.
unfoldable pub unit_of : ℕ → ℕ → ℕ
unit_of zero n = 1
unit_of (suc k) n = let rest = unit_of k (n / 2) in if ltb n (2 ^ 53) then 1 else 2 * rest

-- `float64(n)`
unfoldable pub nearest : ℕ → ℕ
unfolding half_even unit_of
nearest n = half_even n (unit_of 11 n) * unit_of 11 n

-- How often a doubles until a / b has 53 bits, and how often b doubles until it has no more.
unfoldable pub ups : ℕ → ℕ → ℕ → ℕ
ups zero a b = 0
ups (suc k) a b = let rest = ups k (2 * a) b in if ltb a (2 ^ 52 * b) then suc rest else 0

unfoldable pub downs : ℕ → ℕ → ℕ → ℕ
downs zero a b = 0
downs (suc k) a b = let rest = downs k a (2 * b) in if ltb a (2 ^ 53 * b) then 0 else suc rest

-- `math.Round(a / b)` for a, b > 0 that are float64 values: halves go up.
unfoldable pub round_quotient : ℕ → ℕ → ℕ
unfolding ups downs half_even
round_quotient a b =
    let e = ups 128 a b in
    let f = downs 128 a b in
    if e == 0
    then half_even a (b * 2 ^ f) * 2 ^ f
    else (2 * half_even (a * 2 ^ e) b + 2 ^ e) / 2 ^ (e + 1)

-- `math.Round(float64(d) / float64(o))` for o ≠ 0.
unfoldable pub round_ratio : ℤ → ℤ → ℤ
unfolding round_quotient nearest
round_ratio (pos zero) o = pos 0
round_ratio (pos (suc d)) (pos o) = pos (round_quotient (nearest (suc d)) (nearest o))
round_ratio (pos (suc d)) (negsuc o) = sub_ℕ 0 (round_quotient (nearest (suc d)) (nearest (suc o)))
round_ratio (negsuc d) (pos o) = sub_ℕ 0 (round_quotient (nearest (suc d)) (nearest o))
round_ratio (negsuc d) (negsuc o) = pos (round_quotient (nearest (suc d)) (nearest (suc o)))

five_seconds : round_ratio (pos 5000) (pos 1000) ≡ pos 5
unfolding round_ratio
five_seconds = refl

half_away : round_ratio (negsuc 24) (pos 10) ≡ negsuc 2
unfolding round_ratio
half_away = refl

unit_of-le : (k n : ℕ) → 1 ≤ n → unit_of k n ≤ n
unfolding unit_of
unit_of-le zero n h = h
unit_of-le (suc k) n h = ground (arith, unit_of-le k (n / 2))

unit_of-pos : (k n : ℕ) → 1 ≤ unit_of k n
unfolding unit_of
unit_of-pos zero n = omega arith
unit_of-pos (suc k) n = ground (arith, unit_of-pos k (n / 2))

half_even_cases :
    (a b : ℕ)
    → (half_even a (suc b) ≡ a / suc b)
      ⊎ ((half_even a (suc b) ≡ a / suc b + 1) × (suc b ≤ 2 * (a % suc b)))
unfolding half_even
half_even_cases a b = ground arith

le_mul : (q u r : ℕ) → u ≤ q * u + r → r < u → u ≤ q * u
le_mul zero u r h k = absurd (omega arith)
le_mul (suc q) u r h k = grind arith

-- Rounding to any unit up to n stays below twice n.
half_even_mul : (n u : ℕ) → 1 ≤ n → 1 ≤ u → u ≤ n → half_even n u * u < 2 * n
half_even_mul n zero h l k = absurd (omega arith)
half_even_mul n (suc u) h l k = elim (half_even_cases n u) [
  | inl e ↦ rw e (grind (arith, div-add-mod n (suc u)))
  | inr (e, f) ↦ rw e (up (div-add-mod n (suc u)) (mod-lt n (omega arith)) f)
]
  where
    up :
        suc u * (n / suc u) + n % suc u ≡ n
        → n % suc u < suc u
        → suc u ≤ 2 * (n % suc u)
        → (n / suc u + 1) * suc u < 2 * n
    up d m f = grind (arith, le_mul (n / suc u) (suc u) (n % suc u) (omega arith) m, d, f)

pub nearest-lt : (n : ℕ) → 1 ≤ n → nearest n < 2 * n
unfolding nearest
nearest-lt n h = half_even_mul n (unit_of 11 n) h (unit_of-pos 11 n) (unit_of-le 11 n h)
