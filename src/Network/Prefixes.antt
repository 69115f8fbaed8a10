-- ===== src/Network/Prefixes.antt =====
-- The neighborhoods of pkg/check/networkavailability/check.go are told apart by their prefixes.
use beekeeper.Common.{
  ℕ, zero, suc, ◌+◌, ◌-◌, ◌*◌, ◌/◌, ◌%◌, ◌^◌, ◌≤◌, ◌<◌, ◌≡◌, refl, inl, inr, true, List, [], ◌∷◌,
  arith, if◌then◌else◌, leb, ltb, Bool-cases, ap, ◌∙◌, lt→not-leb,
}
use native.Mathlib.Nat.{pow-succ', pow-le-pow_right}
use beekeeper.Common.Outcome.{Outcome, ok}
use beekeeper.Network.Neighborhoods.{
  put_uint32, take_bytes, width, shift_last, align, bytes_to_addr, neighborhood,
}

le→leb : (a b : ℕ) → a ≤ b → leb a b ≡ true
le→leb a b h = ground arith

-- The number that the first bits of an address make, the first byte being the lowest and the bits of
-- the last byte its highest.
unfoldable pub prefix_number : ℕ → List ℕ → ℕ
prefix_number bits [] = 0
prefix_number bits (b ∷ bytes) =
    let rest = prefix_number (bits - 8) bytes in
    if leb bits 8 then b / 2 ^ (8 - bits) else b + 256 * rest

-- The lowest bytes of a number.
abbrev bytes_of : ℕ → ℕ → List ℕ
bytes_of zero i = []
bytes_of (suc n) i = i % 256 ∷ bytes_of n (i / 256)

shift : ℕ → List ℕ → Outcome ⊥ (List ℕ)
unfolding shift_last
shift l bytes = if ltb 0 (l % 8) then shift_last (8 - l % 8) bytes else ok bytes

pow8 : (x : ℕ) → 2 ^ (x + 8) ≡ 256 * 2 ^ x
pow8 x =
    let same : x + 8 ≡ suc (suc (suc (suc (suc (suc (suc (suc x))))))) = omega arith in
    ap (λ k. 2 ^ k) same
    ∙ omega (
      arith,
      pow-succ' 2 x,
      pow-succ' 2 (suc x),
      pow-succ' 2 (suc (suc x)),
      pow-succ' 2 (suc (suc (suc x))),
      pow-succ' 2 (suc (suc (suc (suc x)))),
      pow-succ' 2 (suc (suc (suc (suc (suc x))))),
      pow-succ' 2 (suc (suc (suc (suc (suc (suc x)))))),
      pow-succ' 2 (suc (suc (suc (suc (suc (suc (suc x))))))),
    )

-- The last byte holds its bits.
last_byte :
    (l i : ℕ)
    → 1 ≤ l
    → l ≤ 8
    → i < 2 ^ l
    → (a : ℕ) × (shift l (i % 256 ∷ []) ≡ ok (a ∷ [])) × (a / 2 ^ (8 - l) ≡ i)
unfolding shift
last_byte zero i p q h = absurd (omega arith)
last_byte (suc zero) i p q h = (i % 256 * 128 % 256, refl, omega arith)
last_byte (suc (suc zero)) i p q h = (i % 256 * 64 % 256, refl, omega arith)
last_byte (suc (suc (suc zero))) i p q h = (i % 256 * 32 % 256, refl, omega arith)
last_byte (suc (suc (suc (suc zero)))) i p q h = (i % 256 * 16 % 256, refl, omega arith)
last_byte (suc (suc (suc (suc (suc zero))))) i p q h = (i % 256 * 8 % 256, refl, omega arith)
last_byte (suc (suc (suc (suc (suc (suc zero)))))) i p q h = (i % 256 * 4 % 256, refl, omega arith)
last_byte (suc (suc (suc (suc (suc (suc (suc zero))))))) i p q h =
    (i % 256 * 2 % 256, refl, omega arith)
last_byte (suc (suc (suc (suc (suc (suc (suc (suc zero)))))))) i p q h =
    (i % 256, refl, omega arith)
last_byte (suc (suc (suc (suc (suc (suc (suc (suc (suc l))))))))) i p q h = absurd (omega arith)

module _ (l : ℕ) (1≤l : 1 ≤ l) (l≤8 : l ≤ 8) where
  -- The bytes of a number, the last one aligned, are read back from the start of an address.
  Reads : ℕ → ℕ → ℕ → Type 0
  Reads w n i =
      (a : List ℕ) × (shift l (bytes_of (suc w) i) ≡ ok a)
      × (prefix_number (l + 8 * w) (bytes_to_addr n a) ≡ i)

  shift-cons :
      (b c : ℕ) (bytes a : List ℕ)
      → shift l (c ∷ bytes) ≡ ok a
      → shift l (b ∷ c ∷ bytes) ≡ ok (b ∷ a)
  unfolding shift
  shift-cons b c bytes a h = elim (Bool-cases (ltb 0 (l % 8))) [
    | inl e ↦
        let h' : shift_last (8 - l % 8) (c ∷ bytes) ≡ ok a = rw (shift, e) at h in
        rw (shift, e, shift_last, h') refl
    | inr e ↦
        let h' = rw (shift, e) at h in
        let same : c ∷ bytes ≡ a = cc in rw (shift, e) (ap (λ x. ok (b ∷ x)) same)
  ]

  shift-Reads : (w n i : ℕ) → i < 2 ^ (l + 8 * w) → w < n → Reads w n i
  unfolding Reads prefix_number bytes_to_addr
  shift-Reads zero zero i h q = absurd (omega (arith, q))
  shift-Reads zero (suc n) i h q =
      let same : l + 8 * 0 ≡ l = omega arith in
      let (a, e, r) = last_byte l i 1≤l l≤8 (rw same at h) in
      (a ∷ [], e, rw (bytes_to_addr, prefix_number, same, le→leb l 8 l≤8) r)
  shift-Reads (suc w) zero i h q = absurd (omega (arith, q))
  shift-Reads (suc w) (suc n) i h q =
      let same : l + 8 * suc w ≡ l + 8 * w + 8 = omega arith in
      let less : i / 256 < 2 ^ (l + 8 * w) = omega (arith, pow8 (l + 8 * w), rw same at h) in
      let (a, e, r) = shift-Reads w n (i / 256) less (omega (arith, q)) in
      let minus : l + 8 * suc w - 8 ≡ l + 8 * w = omega arith in
      (
        i % 256 ∷ a,
        shift-cons (i % 256) (i / 256 % 256) (bytes_of w (i / 256 / 256)) a e,
        rw (bytes_to_addr, prefix_number, minus, lt→not-leb (l + 8 * suc w) 8 (omega arith), r)
            (omega arith),
      )

  -- The bytes that the code takes of a number of 32 bits.
  taken : (w i : ℕ) → w ≤ 3 → take_bytes (width (l + 8 * w)) (put_uint32 i) ≡ bytes_of (suc w) i
  unfolding width put_uint32
  taken w i q = rw (width_suc w q) (by_width w q)
    where
      width_suc : (w : ℕ) → w ≤ 3 → width (l + 8 * w) ≡ suc w
      width_suc zero q = rw (width, le→leb (l + 8 * 0) 8 (omega arith)) refl
      width_suc (suc zero) q =
          rw (width, lt→not-leb (l + 8 * 1) 8 (omega arith), le→leb (l + 8 * 1) 16 (omega arith))
            refl
      width_suc (suc (suc zero)) q =
          rw
            (
              width,
              lt→not-leb (l + 8 * 2) 8 (omega arith),
              lt→not-leb (l + 8 * 2) 16 (omega arith),
              le→leb (l + 8 * 2) 24 (omega arith),
            )
            refl
      width_suc (suc (suc (suc zero))) q =
          rw
            (
              width,
              lt→not-leb (l + 8 * 3) 8 (omega arith),
              lt→not-leb (l + 8 * 3) 16 (omega arith),
              lt→not-leb (l + 8 * 3) 24 (omega arith),
              le→leb (l + 8 * 3) 32 (omega arith),
            )
            refl
      width_suc (suc (suc (suc (suc w)))) q = absurd (omega (arith, q))

      third : i / 65536 % 256 ≡ i / 256 / 256 % 256
      third = omega arith

      fourth : i / 16777216 % 256 ≡ i / 256 / 256 / 256 % 256
      fourth = omega arith

      by_width : (w : ℕ) → w ≤ 3 → take_bytes (suc w) (put_uint32 i) ≡ bytes_of (suc w) i
      by_width zero q = refl
      by_width (suc zero) q = refl
      by_width (suc (suc zero)) q = ap (λ x. i % 256 ∷ i / 256 % 256 ∷ x ∷ []) third
      by_width (suc (suc (suc zero))) q =
          ap (λ x. i % 256 ∷ i / 256 % 256 ∷ x ∷ i / 16777216 % 256 ∷ []) third
          ∙ ap (λ x. i % 256 ∷ i / 256 % 256 ∷ i / 256 / 256 % 256 ∷ x ∷ []) fourth
      by_width (suc (suc (suc (suc w)))) q = absurd (omega (arith, q))

  neighborhood-reads :
      (hash_size w i : ℕ)
      → w ≤ 3
      → 4 ≤ hash_size
      → i < 2 ^ (l + 8 * w)
      → (a : List ℕ) × (neighborhood hash_size (l + 8 * w) i ≡ ok a)
        × (prefix_number (l + 8 * w) a ≡ i)
  unfolding neighborhood align shift Reads
  neighborhood-reads hash_size w i q s h =
      let (a, e, r) = shift-Reads w hash_size i h (omega (arith, q, s)) in
      let small : i % 2 ^ 32 ≡ i = omega (
        arith,
        h,
        pow-le-pow_right {n = 2} (omega arith) {i = l + 8 * w} {j = 32} (omega (arith, q, l≤8)),
      ) in
      let left : (l + 8 * w) % 8 ≡ l % 8 = omega arith in
      let e' : align (l + 8 * w) (bytes_of (suc w) i) ≡ ok a =
        ap
          (λ k.
            if ltb 0 k then shift_last (8 - k) (bytes_of (suc w) i) else ok (bytes_of (suc w) i))
          left
        ∙ e in
      (bytes_to_addr hash_size a, rw (neighborhood, small, taken w i q, e') refl, r)

-- Each number below 2 to the power of the bits, which are 32 at most, gives an address, and its first
-- bits make that number again: so different numbers give different neighborhoods.
pub prefix_number-neighborhood :
    (hash_size bits i : ℕ)
    → 4 ≤ hash_size
    → bits ≤ 32
    → i < 2 ^ bits
    → (a : List ℕ) × (neighborhood hash_size bits i ≡ ok a) × (prefix_number bits a ≡ i)
unfolding neighborhood prefix_number width align bytes_to_addr put_uint32
prefix_number-neighborhood zero bits i s q h = absurd (omega (arith, s))
prefix_number-neighborhood (suc hash_size) zero i s q h =
    let none : i ≡ 0 = omega (arith, h) in rw none (0 ∷ bytes_to_addr hash_size [], refl, refl)
prefix_number-neighborhood (suc hash_size) (suc bits) i s q h =
    let same : suc (bits % 8) + 8 * (bits / 8) ≡ suc bits = omega arith in
    let (a, e, r) =
      neighborhood-reads (suc (bits % 8)) (omega arith) (omega arith) (suc hash_size) (bits / 8) i
        (omega (arith, q)) s (rw same h) in
    (a, rw same at e, rw same at r)
