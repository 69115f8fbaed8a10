-- ===== src/Random/Range.antt =====
-- The range of the numbers that `GetRandom` of pkg/random/random.go returns.
use beekeeper.Common.{
  ℕ, zero, suc, ◌+◌, ◌≤◌, ◌<◌, ◌^◌, ◌≡◌, refl, true, false, arith, ap, ◌-◌, Bool-cases, inl, inr,
  ◌≢◌, ◌⊎◌,
}
use beekeeper.Common.Int.{
  ℤ, pos, negsuc, pos_part, neg_part, ◌+ℤ◌, ◌-ℤ◌, ◌≤ℤ◌, wrap64, wrap64_id, wrap64-InInt64, InInt64,
  int_laws, +ℤ_parts, +ℤ_signs, leb_ℤ,
}
use beekeeper.Common.Outcome.{Outcome, ok, err, panic}
use beekeeper.Random.Defs.{
  Generator, Source, RandomError, abs, lower, upper, span, draw, draw_unused, get_random, is_used,
}

pub abs-InInt64 : (x : ℤ) → InInt64 x → InInt64 (abs x)
unfolding abs
abs-InInt64 x h = ground (arith, wrap64-InInt64 (pos 0 -ℤ x))

pub lower-le-upper : (min max : ℤ) → lower min max ≤ℤ upper min max
unfolding lower upper
lower-le-upper min max = ground arith

lower-InInt64 : (min max : ℤ) → InInt64 min → InInt64 max → InInt64 (lower min max)
unfolding lower
lower-InInt64 min max h k = ground (arith, abs-InInt64 min h, abs-InInt64 max k)

upper-InInt64 : (min max : ℤ) → InInt64 min → InInt64 max → InInt64 (upper min max)
unfolding upper
upper-InInt64 min max h k = ground (arith, abs-InInt64 min h, abs-InInt64 max k)

-- A size that passes the guard has not wrapped: it is the number of integers in the range.
pub span-exact :
    (min max : ℤ)
    → InInt64 min
    → InInt64 max
    → leb_ℤ (span min max) (pos 0) ≡ false
    → pos (pos_part (span min max)) ≡ upper min max -ℤ lower min max +ℤ pos 1
unfolding span wrap64 ◌+ℤ◌ ◌-ℤ◌
span-exact min max h k g =
    ground (arith, lower-InInt64 min max h k, upper-InInt64 min max h k, lower-le-upper min max)

-- The source keeps to the contract of `Intn`: a value below the bound.
abbrev pub IsBounded : Source → Type 0
IsBounded intn = (i n : ℕ) → 0 < n → intn i n < n

module _ (intn : Source) (bounded : IsBounded intn) (min max : ℤ) (hmin : InInt64 min)
    (hmax : InInt64 max) (valid : leb_ℤ (span min max) (pos 0) ≡ false) where
  abbrev size : ℕ
  size = pos_part (span min max)

  size_lem :
      size + pos_part (lower min max) + neg_part (upper min max)
      ≡ pos_part (upper min max) + neg_part (lower min max) + 1
  size_lem =
      let e = span-exact min max hmin hmax valid in omega (int_laws, ap pos_part e, ap neg_part e)

  intn-lt-size : (i : ℕ) → intn i size < size
  intn-lt-size i = bounded i size (ground arith)

  -- A draw is one of the numbers of the range, and the addition does not wrap.
  pub draw-exact : (i : ℕ) → draw intn (lower min max) size i ≡ lower min max +ℤ pos (intn i size)
  unfolding draw
  draw-exact i =
      wrap64_id (lower min max +ℤ pos (intn i size))
        (in_range (upper-InInt64 min max hmin hmax) (lower-InInt64 min max hmin hmax))
    where
      in_range :
          InInt64 (upper min max)
          → InInt64 (lower min max)
          → InInt64 (lower min max +ℤ pos (intn i size))
      in_range u l = ground (
        arith,
        +ℤ_parts (lower min max) (pos (intn i size)),
        intn-lt-size i,
        size_lem,
        +ℤ_signs (lower min max) (pos (intn i size)),
      )

  draw_range :
      (i : ℕ)
      → (lower min max ≤ℤ draw intn (lower min max) size i)
        × (draw intn (lower min max) size i ≤ℤ upper min max)
  draw_range i = rw draw-exact (go)
    where
      go :
          (lower min max ≤ℤ lower min max +ℤ pos (intn i size))
          × (lower min max +ℤ pos (intn i size) ≤ℤ upper min max)
      go = omega (int_laws, size_lem, intn-lt-size i)

  abbrev IsIn : Outcome RandomError (ℤ × Generator) → Type 0
  IsIn (ok (code, g)) = (lower min max ≤ℤ code) × (code ≤ℤ upper min max)
  IsIn (err e) = Unit
  IsIn panic = Unit

  draw_unused-IsIn :
      (fuel i : ℕ) (g : Generator) → IsIn (draw_unused intn fuel i (lower min max) size g)
  unfolding draw_unused
  draw_unused-IsIn zero i g = tt
  draw_unused-IsIn (suc fuel) i g =
      elim (Bool-cases (is_used (draw intn (lower min max) size i) g.used)) [
        | inl e ↦ rw (e, draw_unused) (draw_unused-IsIn fuel (i + 1) g)
        | inr e ↦ rw (e, draw_unused) (draw_range i)
      ]

  get_random-IsIn : (fuel i : ℕ) (g : Generator) → IsIn (get_random intn fuel i min max g)
  unfolding get_random
  get_random-IsIn fuel i g = ground (arith, draw_range i, draw_unused-IsIn fuel i g)

abbrev pub magnitude : ℤ → ℕ
magnitude z = pos_part z + neg_part z

-- -2^63, whose negation wraps to itself.
abbrev pub least : ℤ
least = negsuc (2 ^ 63 - 1)

abs-magnitude : (z : ℤ) → InInt64 z → z ≢ least → abs z ≡ pos (magnitude z)
unfolding abs wrap64 ◌-ℤ◌
abs-magnitude (pos n) h ne = ground arith
abs-magnitude (negsuc n) h ne = ground (arith, λ (e : n ≡ 2 ^ 63 - 1). ne (ap negsuc e))

abbrev Between : ℤ → ℤ → ℤ → Type 0
Between min max code =
    (c : ℕ) × (code ≡ pos c)
    × ((magnitude min ≤ c) × (c ≤ magnitude max) ⊎ (magnitude max ≤ c) × (c ≤ magnitude min))

abbrev Ordered : ℤ → ℤ → Type 0
Ordered min max =
    (lower min max ≡ pos (magnitude min)) × (upper min max ≡ pos (magnitude max))
    ⊎ (lower min max ≡ pos (magnitude max)) × (upper min max ≡ pos (magnitude min))

lower_upper :
    (min max : ℤ) → abs min ≡ pos (magnitude min) → abs max ≡ pos (magnitude max) → Ordered min max
unfolding lower upper
lower_upper min max e f = ground arith

within :
    (min max code : ℤ)
    → Ordered min max
    → (lower min max ≤ℤ code) × (code ≤ℤ upper min max)
    → Between min max code
within min max (pos c) (inl (l, u)) h =
    (c, refl, inl (omega (arith, rw l at h.0), omega (arith, rw u at h.1)))
within min max (pos c) (inr (l, u)) h =
    (c, refl, inr (omega (arith, rw l at h.0), omega (arith, rw u at h.1)))
within min max (negsuc c) (inl (l, u)) h = absurd (ground (arith, rw l at h.0))
within min max (negsuc c) (inr (l, u)) h = absurd (ground (arith, rw l at h.0))

refused :
    (intn : Source) (fuel i : ℕ) (min max : ℤ) (g g' : Generator) (code : ℤ)
    → leb_ℤ (span min max) (pos 0) ≡ true
    → get_random intn fuel i min max g ≢ ok (code, g')
unfolding get_random
refused intn fuel i min max g g' code bad = ground arith

-- Whatever the draws, a number that `GetRandom` returns lies between the absolute values of its
-- arguments, if neither is -2^63 and the source keeps below the bound that it is given.
pub get_random-between :
    (intn : Source) (fuel i : ℕ) (min max : ℤ) (g g' : Generator) (code : ℤ)
    → IsBounded intn
    → InInt64 min
    → InInt64 max
    → min ≢ least
    → max ≢ least
    → get_random intn fuel i min max g ≡ ok (code, g')
    → (c : ℕ) × (code ≡ pos c)
      × ((magnitude min ≤ c) × (c ≤ magnitude max) ⊎ (magnitude max ≤ c) × (c ≤ magnitude min))
get_random-between intn fuel i min max g g' code bounded hmin hmax nmin nmax h =
    let bounds = lower_upper min max (abs-magnitude min hmin nmin) (abs-magnitude max hmax nmax) in
    elim (Bool-cases (leb_ℤ (span min max) (pos 0))) [
      | inl bad ↦ absurd (refused intn fuel i min max g g' code bad h)
      | inr valid ↦
          within min max code bounds
            (rw h at (get_random-IsIn intn bounded min max hmin hmax valid fuel i g))
    ]
