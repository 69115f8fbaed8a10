-- ===== src/Stamper/Batch.antt =====
-- A postage batch as the node's API reports it, `BatchUsage` (pkg/bee/api/postage.go) and
-- `isValidBatch` (pkg/stamper/node.go).
use beekeeper.Common.{
  ℕ, ◌+◌, ◌-◌, ◌*◌, ◌%◌, ◌^◌, Bool, true, false, not, ◌&&◌, ◌||◌, List, [], ◌∷◌, if◌then◌else◌, ltb,
  ◌==◌, String, str_eq,
}
use beekeeper.Common.Int.{ℤ, pos, sub_ℕ, ◌*ℤ◌, leb_ℤ}

pub record PostageStampResponse : Type 0 where
  pub batch_id : String
  pub utilization : ℕ
  pub usable : Bool
  pub label : String
  pub depth : ℕ
  pub amount : ℤ
  pub bucket_depth : ℕ
  pub block_number : ℕ
  pub immutable_flag : Bool
  pub exists : Bool
  pub batch_ttl : ℤ

-- A finite float64 is a fraction of an integer and a positive number.
pub record Fraction : Type 0 where
  pub num : ℤ
  pub den : ℕ

pub data Usage : Type 0 where
  finite : Fraction → Usage
  infinite not_a_number : Usage

-- `1 << (batch.Depth - batch.BucketDepth)`: the difference of two uint8 wraps, and a shift of an
-- int by 63 gives the least int, by more gives 0.
unfoldable pub shift : ℕ → ℕ → ℕ
shift depth bucket_depth = (depth + 256 - bucket_depth) % 256

-- The quotient of a uint32 by a power of two, times 100, has at most 39 bits, so it is exact.
unfoldable pub batch_usage : PostageStampResponse → Usage
unfolding shift
batch_usage batch =
    let k = shift batch.depth batch.bucket_depth in
    let percent = batch.utilization * 100 in
    if ltb k 63
    then finite (record { num = pos percent; den = 2 ^ k })
    else if k == 63
    then finite (record { num = sub_ℕ 0 percent; den = 2 ^ 63 })
    else if batch.utilization == 0
    then not_a_number
    else infinite

-- `usage >= threshold`
unfoldable pub at_least : Usage → Fraction → Bool
at_least (finite u) t = leb_ℤ (t.num *ℤ pos u.den) (u.num *ℤ pos t.den)
at_least infinite t = true
at_least not_a_number t = false

pub record Options : Type 0 where
  pub batch_ids : List String
  pub postage_labels : List String

-- `slices.Contains`
unfoldable pub contains : List String → String → Bool
contains [] s = false
contains (x ∷ xs) s = if str_eq x s then true else contains xs s

-- `len(xs) > 0`
abbrev pub is_set : List String → Bool
is_set [] = false
is_set (x ∷ xs) = true

unfoldable pub is_valid_batch : PostageStampResponse → Options → Bool
unfolding contains
is_valid_batch batch opts =
    if not batch.usable || batch.utilization == 0 || leb_ℤ batch.batch_ttl (pos 0)
    then false
    else if is_set opts.batch_ids && not (contains opts.batch_ids batch.batch_id)
    then false
    else if is_set opts.postage_labels && not (contains opts.postage_labels batch.label)
    then false
    else true
