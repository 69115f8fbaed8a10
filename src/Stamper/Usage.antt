-- ===== src/Stamper/Usage.antt =====
-- `BatchUsage` of pkg/bee/api/postage.go against the percentage that it stands for.
use beekeeper.Common.{ℕ, ◌+◌, ◌-◌, ◌*◌, ◌^◌, ◌≤◌, ◌<◌, ◌≡◌, ◌↔◌, true, arith, lt→ltb}
use beekeeper.Common.Int.{ℤ, pos, ◌*ℤ◌, ◌≤ℤ◌, leb_ℤ}
use beekeeper.Stamper.Batch.{PostageStampResponse, Fraction, shift, batch_usage, at_least}

shift-exact :
    (depth bucket_depth : ℕ)
    → bucket_depth ≤ depth
    → depth < 256
    → shift depth bucket_depth ≡ depth - bucket_depth
unfolding shift
shift-exact depth bucket_depth h k = omega arith

leb_ℤ_iff : (a b : ℤ) → (leb_ℤ a b ≡ true) ↔ (a ≤ℤ b)
leb_ℤ_iff a b = ((λ h. ground arith), (λ h. ground arith))

-- For a batch whose depth exceeds its bucket depth by less than 63, the usage is at least a
-- threshold t exactly when utilization / 2^(depth - bucketDepth) * 100 ≥ t, as exact fractions.
pub batch_usage-at_least :
    (batch : PostageStampResponse) (t : Fraction)
    → batch.bucket_depth ≤ batch.depth
    → batch.depth < batch.bucket_depth + 63
    → batch.depth < 256
    → (at_least (batch_usage batch) t ≡ true) ↔ (
        t.num *ℤ pos (2 ^ (batch.depth - batch.bucket_depth))
        ≤ℤ pos (batch.utilization * 100) *ℤ pos t.den)
unfolding batch_usage at_least
batch_usage-at_least batch t a b c =
    rw (shift-exact batch.depth batch.bucket_depth a c, lt→ltb _ 63 (small a b))
      (leb_ℤ_iff (t.num *ℤ pos (2 ^ (batch.depth - batch.bucket_depth)))
        (pos (batch.utilization * 100) *ℤ pos t.den))
  where
    small :
        batch.bucket_depth ≤ batch.depth
        → batch.depth < batch.bucket_depth + 63
        → batch.depth - batch.bucket_depth < 63
    small h k = omega arith
