-- ===== src/Network/Neighborhoods.antt =====
-- `neighborhoods` of pkg/check/networkavailability/check.go: an address for each neighborhood of a
-- storage radius. A byte is a number below 256, and `hash_size` is the `HashSize` of the package
-- swarm.
use beekeeper.Common.{
  ℕ, zero, suc, ◌-◌, ◌*◌, ◌≡◌, refl, ◌/◌, ◌%◌, ◌^◌, List, [], ◌∷◌, if◌then◌else◌, leb, ltb,
}
use beekeeper.Common.Outcome.{Outcome, ok, err, panic, ◌>>=◌}

-- `binary.LittleEndian.PutUint32` of `uint32(i)`: the lowest byte stands first.
unfoldable pub put_uint32 : ℕ → List ℕ
put_uint32 i = i % 256 ∷ i / 256 % 256 ∷ i / 65536 % 256 ∷ i / 16777216 % 256 ∷ []

abbrev pub take_bytes : ℕ → List ℕ → List ℕ
take_bytes zero bytes = []
take_bytes (suc n) [] = []
take_bytes (suc n) (b ∷ bytes) = b ∷ take_bytes n bytes

-- The bytes that the number of bits takes; none for more than 32 bits.
unfoldable pub width : ℕ → ℕ
width bits =
    if leb bits 8
    then 1
    else if leb bits 16
    then 2
    else if leb bits 24
    then 3
    else if leb bits 32
    then 4
    else 0

-- `addr[len(addr)-1] <<= k` on a byte; it panics without a byte.
unfoldable pub shift_last : ℕ → List ℕ → Outcome ⊥ (List ℕ)
shift_last k [] = panic
shift_last k (b ∷ []) = ok (b * 2 ^ k % 256 ∷ [])
shift_last k (b ∷ c ∷ bytes) = elim (shift_last k (c ∷ bytes)) [
  | ok shifted ↦ ok (b ∷ shifted)
  | err e ↦ absurd e
  | panic ↦ panic
]

-- The shift of the last byte by the bits that the number of bits leaves over.
unfoldable pub align : ℕ → List ℕ → Outcome ⊥ (List ℕ)
unfolding shift_last
align bits addr = if ltb 0 (bits % 8) then shift_last (8 - bits % 8) addr else ok addr

abbrev pub zeros : ℕ → List ℕ
zeros zero = []
zeros (suc n) = 0 ∷ zeros n

-- `bytesToAddr`: the bytes at the start of `hash_size` zero bytes.
unfoldable pub bytes_to_addr : ℕ → List ℕ → List ℕ
bytes_to_addr hash_size [] = zeros hash_size
bytes_to_addr zero (b ∷ bytes) = []
bytes_to_addr (suc hash_size) (b ∷ bytes) = b ∷ bytes_to_addr hash_size bytes

module _ (hash_size : ℕ) where
  -- The address number `i`.
  unfoldable pub neighborhood : ℕ → ℕ → Outcome ⊥ (List ℕ)
  unfolding put_uint32 width align bytes_to_addr
  neighborhood bits i = elim (align bits (take_bytes (width bits) (put_uint32 (i % 2 ^ 32)))) [
    | ok addr ↦ ok (bytes_to_addr hash_size addr)
    | err e ↦ absurd e
    | panic ↦ panic
  ]

  -- The addresses from number `i` on, `count` of them.
  unfoldable pub neighborhoods_from : ℕ → ℕ → ℕ → Outcome ⊥ (List (List ℕ))
  unfolding neighborhood
  neighborhoods_from bits i zero = ok []
  neighborhoods_from bits i (suc count) = neighborhood bits i >>= λ addr.
      neighborhoods_from bits (suc i) count >>= λ rest. ok (addr ∷ rest)

  -- `1 << bits` is 2 to the number of bits, which is below 63.
  unfoldable pub neighborhoods : ℕ → Outcome ⊥ (List (List ℕ))
  unfolding neighborhoods_from
  neighborhoods bits = neighborhoods_from bits 0 (2 ^ bits)

three_bits : (neighborhoods_from 32 3 6 2) ≡ ok ((192 ∷ zeros 31) ∷ (224 ∷ zeros 31) ∷ [])
unfolding neighborhoods_from
three_bits = refl
