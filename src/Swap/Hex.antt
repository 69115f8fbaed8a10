-- ===== src/Swap/Hex.antt =====
-- `strconv.ParseInt(s, 16, 64)` on the bytes of a text, as pkg/swap/block.go uses it.
use beekeeper.Common.{
  ℕ, ◌+◌, ◌-◌, ◌*◌, ◌^◌, ◌≡◌, refl, Bool, true, false, ◌&&◌, Option, none, some, List, [], ◌∷◌, ltb,
  leb, ◌==◌, if◌then◌else◌,
}
use beekeeper.Common.Int.{ℤ, pos, sub_ℕ}

unfoldable pub digit : ℕ → Option ℕ
digit c =
    if leb b'0' c && leb c b'9'
    then some (c - b'0')
    else if leb b'a' c && leb c b'f'
    then some (c - b'a' + 10)
    else if leb b'A' c && leb c b'F'
    then some (c - b'A' + 10)
    else none

-- The digits that follow the value `acc`.
unfoldable pub digits : ℕ → List ℕ → Option ℕ
unfolding digit
digits acc [] = some acc
digits acc (c ∷ s) = elim (digit c) [ none ↦ none | some d ↦ digits (16 * acc + d) s ]

unfoldable pub magnitude : List ℕ → Option ℕ
unfolding digits
magnitude [] = none
magnitude (c ∷ s) = digits 0 (c ∷ s)

-- A magnitude that fits, with its sign.
unfoldable pub signed : Bool → Option ℕ → Option ℤ
signed negative none = none
signed true (some n) = if leb n (2 ^ 63) then some (sub_ℕ 0 n) else none
signed false (some n) = if ltb n (2 ^ 63) then some (pos n) else none

unfoldable pub parse_hex : List ℕ → Option ℤ
unfolding signed magnitude
parse_hex [] = none
parse_hex (c ∷ s) =
    if c == b'-'
    then signed true (magnitude s)
    else if c == b'+'
    then signed false (magnitude s)
    else signed false (magnitude (c ∷ s))

parse_1f : parse_hex (b'1' ∷ b'f' ∷ []) ≡ some (pos 31)
unfolding parse_hex
parse_1f = refl
