-- ===== src/Random/Defs.antt =====
-- `GetRandom`, `Reset` and `abs` of pkg/random/random.go. The random source is an input: `intn i n`
-- is what call number `i` of `rnd.Intn(n)` returns. The mutex makes each call one step.
use beekeeper.Common.{
  ℕ, zero, suc, ◌+◌, Bool, true, false, not, List, [], ◌∷◌, if◌then◌else◌, length, leb,
}
use beekeeper.Common.Int.{ℤ, pos, ◌+ℤ◌, ◌-ℤ◌, wrap64, ltb_ℤ, leb_ℤ, eqb_ℤ, pos_part}
use beekeeper.Common.Outcome.{Outcome, ok, err}

pub record Generator : Type 0 where
  pub unique : Bool
  pub used : List ℤ

-- `out_of_draws` is not an error of the code: the loop goes on drawing. See `get_random-returns`.
pub data RandomError : Type 0 where
  invalid_range unique_number_exhausted out_of_draws : RandomError

abbrev pub Source : Type 0
Source = ℕ → ℕ → ℕ

unfoldable pub abs : ℤ → ℤ
abs x = if ltb_ℤ x (pos 0) then wrap64 (pos 0 -ℤ x) else x

-- `_, found := g.used[code]`
unfoldable pub is_used : ℤ → List ℤ → Bool
is_used code [] = false
is_used code (x ∷ xs) = if eqb_ℤ x code then true else is_used code xs

-- The range after `abs` and the swap: its lower end, its upper end and its size.
unfoldable pub lower : ℤ → ℤ → ℤ
unfolding abs
lower min max = if ltb_ℤ (abs max) (abs min) then abs max else abs min

unfoldable pub upper : ℤ → ℤ → ℤ
unfolding abs
upper min max = if ltb_ℤ (abs max) (abs min) then abs min else abs max

unfoldable pub span : ℤ → ℤ → ℤ
unfolding lower upper
span min max = wrap64 (wrap64 (upper min max -ℤ lower min max) +ℤ pos 1)

module _ (intn : Source) where
  unfoldable pub draw : ℤ → ℕ → ℕ → ℤ
  draw low size i = wrap64 (low +ℤ pos (intn i size))

  -- The endless loop, for `fuel` draws from call number `i` on.
  unfoldable pub draw_unused : ℕ → ℕ → ℤ → ℕ → Generator → Outcome RandomError (ℤ × Generator)
  unfolding draw is_used
  draw_unused zero i low size g = err out_of_draws
  draw_unused (suc fuel) i low size g =
      let code = draw low size i in
      let rest = draw_unused fuel (i + 1) low size g in
      if is_used code g.used then rest else ok (code, record g { used = code ∷ g.used })

  unfoldable pub get_random : ℕ → ℕ → ℤ → ℤ → Generator → Outcome RandomError (ℤ × Generator)
  unfolding lower span draw
  get_random fuel i min max g =
      let size = span min max in
      if leb_ℤ size (pos 0)
      then err invalid_range
      else if not g.unique
      then ok (draw (lower min max) (pos_part size) i, g)
      else if leb (pos_part size) (length g.used)
      then err unique_number_exhausted
      else draw_unused fuel i (lower min max) (pos_part size) g

unfoldable pub reset : Generator → Generator
reset g = record g { used = [] }
