-- ===== src/Random/Draws.antt =====
-- When the loop of `GetRandom` in pkg/random/random.go returns, and when it gives up.
use beekeeper.Common.{
  ℕ, zero, suc, ◌+◌, ◌≤◌, ◌<◌, ◌≡◌, ◌≢◌, true, false, ◌∷◌, arith, length, Bool-cases, inl, inr, ◌∙◌,
  ap, ◌↔◌,
}
use native.Mathlib.Decide.{ℕ_discrete}
use beekeeper.Common.Int.{ℤ, pos, ◌+ℤ◌, pos_part, leb_ℤ, InInt64}
use beekeeper.Common.Outcome.{Outcome, ok, err}
use beekeeper.Random.Defs.{
  Generator, Source, RandomError, unique_number_exhausted, is_used, lower, span, draw, draw_unused,
  get_random,
}
use beekeeper.Random.Range.{IsBounded, draw-exact}
use beekeeper.Random.Unique.{unused_exists}

-- Within `fuel` calls from number `i` on, the source draws each number below `n`.
abbrev pub IsFair : Source → ℕ → ℕ → ℕ → Type 0
IsFair intn fuel i n = (r : ℕ) → r < n → (j : ℕ) × (i ≤ j) × (j < i + fuel) × (intn j n ≡ r)

Returns : Outcome RandomError (ℤ × Generator) → Type 0
Returns r = (code : ℤ) × (g : Generator) × (r ≡ ok (code, g))

draw_unused-Returns :
    (intn : Source) (fuel i j : ℕ) (low : ℤ) (size : ℕ) (g : Generator)
    → i ≤ j
    → j < i + fuel
    → is_used (draw intn low size j) g.used ≡ false
    → Returns (draw_unused intn fuel i low size g)
unfolding draw_unused Returns
draw_unused-Returns intn zero i j low size g a b u = absurd (omega arith)
draw_unused-Returns intn (suc fuel) i j low size g a b u =
    elim (Bool-cases (is_used (draw intn low size i) g.used)) [
      | inr e ↦ (
        draw intn low size i,
        record g { used = draw intn low size i ∷ g.used },
        rw (e, draw_unused),
      )
      | inl e ↦
          rw (e, draw_unused)
            (draw_unused-Returns intn fuel (i + 1) j low size g (later e) (omega arith) u)
    ]
  where
    later : is_used (draw intn low size i) g.used ≡ true → i + 1 ≤ j
    later e = elim (ℕ_discrete i j) [ yes same ↦ cc | no other ↦ omega arith ]

-- A unique generator that has fewer numbers in use than the range holds returns one, once the
-- source has drawn every number of the range: the loop cannot run for ever.
pub get_random-returns :
    (intn : Source) (fuel i : ℕ) (min max : ℤ) (g : Generator)
    → IsBounded intn
    → InInt64 min
    → InInt64 max
    → g.unique ≡ true
    → leb_ℤ (span min max) (pos 0) ≡ false
    → length g.used < pos_part (span min max)
    → IsFair intn fuel i (pos_part (span min max))
    → (code : ℤ) × (g' : Generator) × (get_random intn fuel i min max g ≡ ok (code, g'))
unfolding get_random Returns
get_random-returns intn fuel i min max g bounded hmin hmax u valid room fair =
    let (r, lt, unused) = unused_exists (lower min max) g.used (pos_part (span min max)) room in
    let (j, a, b, e) = fair r lt in
    let d : draw intn (lower min max) (pos_part (span min max)) j ≡ lower min max +ℤ pos r =
      draw-exact intn bounded min max hmin hmax valid j ∙ ap (λ x. lower min max +ℤ pos x) e in
    let (code, g', q) =
      draw_unused-Returns intn fuel i j (lower min max) (pos_part (span min max)) g a b
        (rw d unused) in
    (code, g', ground arith)

draw_unused-ne-exhausted :
    (intn : Source) (fuel i : ℕ) (low : ℤ) (size : ℕ) (g : Generator)
    → draw_unused intn fuel i low size g ≢ err unique_number_exhausted
unfolding draw_unused
draw_unused-ne-exhausted intn zero i low size g = λ e. cc
draw_unused-ne-exhausted intn (suc fuel) i low size g =
    elim (Bool-cases (is_used (draw intn low size i) g.used)) [
      | inl e ↦ rw (e, draw_unused) (draw_unused-ne-exhausted intn fuel (i + 1) low size g)
      | inr e ↦ rw (e, draw_unused) (λ q. cc)
    ]

-- `GetRandom` says that a range is exhausted exactly when a unique generator has as many numbers
-- in use as the range holds, whether or not they lie in that range.
pub get_random-exhausted_iff :
    (intn : Source) (fuel i : ℕ) (min max : ℤ) (g : Generator)
    → leb_ℤ (span min max) (pos 0) ≡ false
    → (get_random intn fuel i min max g ≡ err unique_number_exhausted)
      ↔ ((g.unique ≡ true) × (pos_part (span min max) ≤ length g.used))
unfolding get_random
get_random-exhausted_iff intn fuel i min max g valid =
    let going = draw_unused-ne-exhausted intn fuel i (lower min max) (pos_part (span min max)) g in
    ((λ h. ground (arith, going)), (λ h. ground arith))
