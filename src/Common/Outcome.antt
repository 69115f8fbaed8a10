-- ===== src/Common/Outcome.antt =====
-- What a Go call with an `error` result ends in: a value, an error, or a run-time panic.
use beekeeper.Common.{◌≡◌, refl}

pub data Outcome {ℓ} (E : Type 0) (A : Type ℓ) : Type ℓ where
  ok : A → Outcome E A
  err : E → Outcome E A
  panic : Outcome E A

module _ {ℓ κ} {E : Type 0} {A : Type ℓ} {B : Type κ} where
  infixl 5 ◌>>=◌ ◌>>◌
  abbrev pub ◌>>=◌ : Outcome E A → (A → Outcome E B) → Outcome E B
  panic >>= next = panic
  err failure >>= next = err failure
  ok value >>= next = next value

  abbrev pub ◌>>◌ : Outcome E A → Outcome E B → Outcome E B
  call >> next = call >>= λ _. next

  -- Inversion of a successful bind.
  pub >>=-eq-ok :
      (call : Outcome E A) (next : A → Outcome E B) {result : B}
      → (call >>= next) ≡ ok result
      → (value : A) × (call ≡ ok value) × (next value ≡ ok result)
  >>=-eq-ok panic next h = cc
  >>=-eq-ok (err failure) next h = cc
  >>=-eq-ok (ok value) next h = (value, refl, h)
