-- ===== src/Random/Unique.antt =====
-- A unique generator of pkg/random/random.go never returns a number twice, and always has one left
-- to return while fewer numbers are used than the range holds.
use beekeeper.Common.{
  ℕ, zero, suc, ◌+◌, ◌≤◌, ◌<◌, ◌≡◌, refl, true, false, List, [], ◌∷◌, arith, if◌then◌else◌, length,
  Bool-cases, inl, inr, ap,
}
use beekeeper.Common.Int.{ℤ, pos, ◌+ℤ◌, pos_part, eqb_ℤ, eqb_ℤ_iff, +ℤ_parts}
use beekeeper.Common.Outcome.{Outcome, ok, err, panic}
use beekeeper.Random.Defs.{
  Generator, Source, RandomError, is_used, lower, span, draw, draw_unused, get_random,
}

-- No number is listed twice.
abbrev pub IsDistinct : List ℤ → Type 0
IsDistinct [] = Unit
IsDistinct (x ∷ xs) = (is_used x xs ≡ false) × IsDistinct xs

abbrev Fresh : Generator → Outcome RandomError (ℤ × Generator) → Type 0
Fresh g (ok (code, g')) = (is_used code g.used ≡ false) × (g' ≡ record g { used = code ∷ g.used })
Fresh g (err e) = Unit
Fresh g panic = Unit

draw_unused-Fresh :
    (intn : Source) (fuel i : ℕ) (low : ℤ) (size : ℕ) (g : Generator)
    → Fresh g (draw_unused intn fuel i low size g)
unfolding draw_unused
draw_unused-Fresh intn zero i low size g = tt
draw_unused-Fresh intn (suc fuel) i low size g =
    elim (Bool-cases (is_used (draw intn low size i) g.used)) [
      | inl e ↦ rw (e, draw_unused) (draw_unused-Fresh intn fuel (i + 1) low size g)
      | inr e ↦ rw (e, draw_unused) (e, refl)
    ]

get_random-Fresh :
    (intn : Source) (fuel i : ℕ) (min max : ℤ) (g : Generator)
    → g.unique ≡ true
    → Fresh g (get_random intn fuel i min max g)
unfolding get_random
get_random-Fresh intn fuel i min max g u =
    ground (arith, draw_unused-Fresh intn fuel i (lower min max) (pos_part (span min max)) g)

-- A number that a unique generator returns was not used before, and is used from then on: the
-- numbers that it has returned since the last reset are distinct.
pub get_random-IsDistinct :
    (intn : Source) (fuel i : ℕ) (min max : ℤ) (g g' : Generator) (code : ℤ)
    → g.unique ≡ true
    → IsDistinct g.used
    → get_random intn fuel i min max g ≡ ok (code, g')
    → (is_used code g.used ≡ false) × (g'.used ≡ code ∷ g.used) × IsDistinct g'.used
get_random-IsDistinct intn fuel i min max g g' code u d h =
    let f = rw h at (get_random-Fresh intn fuel i min max g u) in
    (f.0, ap (λ (x : Generator). x.used) f.1, rw f.1 (f.0, d))

module _ (low : ℤ) where
  -- How many of the first `n` numbers from `low` on are `u`, and how many are not used.
  hits : ℤ → ℕ → ℕ
  hits u zero = 0
  hits u (suc n) = (if eqb_ℤ u (low +ℤ pos n) then 1 else 0) + hits u n

  free : List ℤ → ℕ → ℕ
  free used zero = 0
  free used (suc n) = (if is_used (low +ℤ pos n) used then 0 else 1) + free used n

  hits_above : (u : ℤ) (n k : ℕ) → u ≡ low +ℤ pos (n + k) → hits u n ≡ 0
  unfolding hits
  hits_above u zero k e = refl
  hits_above u (suc n) k e = ground (
    arith,
    hits_above u n (k + 1),
    +ℤ_parts low (pos (suc n + k)),
    +ℤ_parts low (pos n),
    +ℤ_shift,
  )
    where
      +ℤ_shift : low +ℤ pos (suc n + k) ≡ low +ℤ pos (n + (k + 1))
      +ℤ_shift = ap (λ x. low +ℤ pos x) (omega arith)

  hits-le-one : (u : ℤ) (n : ℕ) → hits u n ≤ 1
  unfolding hits
  hits-le-one u zero = omega arith
  hits-le-one u (suc n) =
      ground (arith, hits-le-one u n, hits_above u n 0, eqb_ℤ_iff u (low +ℤ pos n), +ℤ_zero)
    where
      +ℤ_zero : low +ℤ pos n ≡ low +ℤ pos (n + 0)
      +ℤ_zero = ap (λ x. low +ℤ pos x) (omega arith)

  free-nil : (n : ℕ) → free [] n ≡ n
  unfolding free is_used
  free-nil zero = refl
  free-nil (suc n) = ground (arith, free-nil n)

  free-cons : (u : ℤ) (used : List ℤ) (n : ℕ) → free used n ≤ free (u ∷ used) n + hits u n
  unfolding free hits is_used
  free-cons u used zero = omega arith
  free-cons u used (suc n) = ground (arith, free-cons u used n)

  -- Each used number takes one place at most.
  free-length : (used : List ℤ) (n : ℕ) → n ≤ free used n + length used
  free-length [] n = omega (arith, free-nil n)
  free-length (u ∷ used) n = omega (arith, free-length used n, free-cons u used n, hits-le-one u n)

  free_witness :
      (used : List ℤ) (n : ℕ)
      → 0 < free used n
      → (r : ℕ) × (r < n) × (is_used (low +ℤ pos r) used ≡ false)
  unfolding free
  free_witness used zero h = absurd (omega arith)
  free_witness used (suc n) h = elim (Bool-cases (is_used (low +ℤ pos n) used)) [
    | inl e ↦
        let (r, lt, f) = free_witness used n (omega (arith, rw (e, free) at h)) in
        (r, omega arith, f)
    | inr e ↦ (n, omega arith, e)
  ]

  -- With fewer numbers used than `n`, one of the `n` numbers from `low` on is free.
  pub unused_exists :
      (used : List ℤ) (n : ℕ)
      → length used < n
      → (r : ℕ) × (r < n) × (is_used (low +ℤ pos r) used ≡ false)
  unused_exists used n h = free_witness used n (omega (arith, free-length used n))
