-- ===== src/Stamper/Amount.antt =====
-- The amounts that the stamper buys (pkg/stamper/node.go).
use beekeeper.Common.{ℕ, suc, ◌+◌, ◌*◌, ◌/◌, ◌^◌, ◌≤◌, ◌<◌, ◌≡◌, true, List, ◌∷◌, arith}
use beekeeper.Common.Int.{pos, ◌-ℤ◌, ◌*ℤ◌, wrap64_id, InInt64, quot}
use native.Mathlib.Nat.{div-add-mod, mod-lt}
use beekeeper.Common.Outcome.{ok}
use beekeeper.Stamper.Seconds.{seconds, whole_seconds, whole_seconds-bounds}
use beekeeper.Stamper.Batch.{PostageStampResponse}
use beekeeper.Stamper.Node.{PostageApi, Call, top_up, amount_for, handle_topup, send}

pos_mul : (a b : ℕ) → pos a *ℤ pos b ≡ pos (a * b)
unfolding ◌*ℤ◌
pos_mul a b = grind arith

div-le : (a b : ℕ) → a / suc b ≤ a
div-le a b = grind (arith, div-add-mod)

div_bounds : (a b : ℕ) → (a / suc b * suc b ≤ a) × (a < (a / suc b + 1) * suc b)
div_bounds a b = (grind (arith, div-add-mod), grind (arith, div-add-mod, mod-lt))

quotient_lt : (a b : ℕ) {n : ℕ} → a < n → a / suc b < n
quotient_lt a b h = omega (arith, div-le a b)

-- Where nothing overflows the amount is the price of the whole blocks that fit in the duration.
pub amount_for-exact :
    (d b p : ℕ)
    → d < 2 ^ 63
    → whole_seconds d / suc b * p < 2 ^ 63
    → amount_for (pos d) (pos (suc b)) (pos p) ≡ ok (pos (whole_seconds d / suc b * p))
unfolding amount_for seconds quot
amount_for-exact d b p h k =
    rw
      (
        wrap64_id (pos (whole_seconds d / suc b)) (small (omega (arith, whole_seconds-bounds d))),
        pos_mul (whole_seconds d / suc b) p,
        wrap64_id _ (fits k),
      )
      (ground arith)
  where
    small : whole_seconds d < 2 ^ 63 → InInt64 (pos (whole_seconds d / suc b))
    small h' = (quotient_lt (whole_seconds d) b h', omega arith)

    fits : whole_seconds d / suc b * p < 2 ^ 63 → InInt64 (pos (whole_seconds d / suc b * p))
    fits k' = (k', omega arith)

-- The purchase fills the missing time up to less than one block: a batch whose time to live is at
-- the threshold or below and short of the target is topped up by exactly the price of the whole
-- blocks that fit in the missing seconds, when nothing overflows and the call succeeds.
pub handle_topup-fills :
    (api : PostageApi) (batch : PostageStampResponse) (threshold ttl missing b p : ℕ)
    (log : List Call)
    → ttl ≤ threshold
    → 0 < missing
    → ttl + missing < 2 ^ 63
    → whole_seconds missing / suc b * p < 2 ^ 63
    → api.succeeds log (top_up batch.batch_id (pos (whole_seconds missing / suc b * p))) ≡ true
    → let blocks = whole_seconds missing / suc b in
      (handle_topup api batch
          (pos threshold)
          (pos (ttl + missing))
          (pos ttl)
          (pos (suc b))
          (pos p)
          log
        ≡ (ok true, top_up batch.batch_id (pos (blocks * p)) ∷ log))
      × (blocks * suc b ≤ whole_seconds missing)
      × (whole_seconds missing < (blocks + 1) * suc b)
unfolding handle_topup send ◌-ℤ◌
handle_topup-fills api batch threshold ttl missing b p log below short h m sent = (
  rw
      (
        difference ttl missing,
        wrap64_id (pos missing) (small h),
        handle_topup,
        amount_for-exact missing b p (omega arith) m,
      )
      (ground arith),
  (div_bounds (whole_seconds missing) b).0,
  (div_bounds (whole_seconds missing) b).1,
)
  where
    difference : (x y : ℕ) → pos (x + y) -ℤ pos x ≡ pos y
    difference x y = ground arith

    small : ttl + missing < 2 ^ 63 → InInt64 (pos missing)
    small h' = (omega arith, omega arith)
