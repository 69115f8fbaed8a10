-- ===== src/Purchase/Buy.antt =====
-- `CreatePostageBatch`, `GetOrCreateMutableBatch`, `TopUpPostageBatch` and `DilutePostageBatch` of
-- pkg/bee/client.go. The node's answers are a parameter; none stands for an error. A call that
-- changes a batch is logged, as in the stamper.
use beekeeper.Common.{
  ℕ, zero, suc, ◌^◌, Bool, true, false, not, ◌&&◌, ◌||◌, Option, none, some, List, [], ◌∷◌,
  if◌then◌else◌, String, str_eq, ltb,
}
use beekeeper.Common.Int.{ℤ, pos, negsuc, ◌*ℤ◌, ltb_ℤ, leb_ℤ, eqb_ℤ, wrap64, quot}
use beekeeper.Common.Outcome.{Outcome, ok, err, panic}
use beekeeper.Stamper.Seconds.{seconds}
use beekeeper.Stamper.Batch.{PostageStampResponse, shift}
use beekeeper.Stamper.Node.{Call, create_batch, top_up, dilute}

pub data BuyError : Type 0 where
  reserve_state chain_state fetch_block_time postage_batches create_postage_stamp : BuyError
  batch_details call_failed timed_out : BuyError
  does_not_exist not_usable : (id : String) → BuyError

-- `stamp i` is the answer of `PostageStamp` number `i` since the call before it; `buy` gives the id
-- of a new batch; `reserve_state` is asked before and after a verbose purchase.
pub record BatchApi : Type 0 where
  pub reserve_before : Bool
  pub reserve_after : Bool
  pub current_price : Option ℤ
  pub block_time : Option ℤ
  pub batches : Option (List PostageStampResponse)
  pub buy : Call → Option String
  pub stamp_before : Option PostageStampResponse
  pub sends : Call → Bool
  pub stamp : ℕ → Option PostageStampResponse

-- A result, and the calls that were made.
abbrev pub Bought : Type 0 → Type 0
Bought A = Outcome BuyError A × List Call

module _ (api : BatchApi) where
  -- The 900 questions whether the batch is usable: what the last answer says of it.
  unfoldable pub wait_usable : ℕ → ℕ → Bool → Bool → Bool × Bool
  wait_usable zero i exists usable = (exists, usable)
  wait_usable (suc rounds) i exists usable = elim (api.stamp i) [
    | none ↦ wait_usable rounds (suc i) exists usable
    | some state ↦
        if state.usable then (state.exists, true) else wait_usable rounds (suc i) state.exists false
  ]

  unfoldable pub confirm : String → Bool → Bool × Bool → Outcome BuyError String
  confirm id verbose (exists, usable) =
      if not exists
      then err (does_not_exist id)
      else if not usable
      then err (not_usable id)
      else if verbose && not api.reserve_after
      then err reserve_state
      else ok id

  abbrev pub minimum_batch_depth : ℕ
  minimum_batch_depth = 2

  unfoldable pub create_postage_batch : ℤ → ℕ → String → Bool → Bought String
  unfolding wait_usable confirm
  create_postage_batch amount depth label verbose =
      let call : Call =
        create_batch amount (if ltb depth minimum_batch_depth then minimum_batch_depth else depth)
          label in
      if verbose && not api.reserve_before then (err reserve_state, []) else elim (api.buy call) [
        | none ↦ (err create_postage_stamp, call ∷ [])
        | some id ↦ (confirm id verbose (wait_usable 900 0 false false), call ∷ [])
      ]

  -- `b.Utilization < (1<<(b.Depth-b.BucketDepth))`, a uint32: a shift by 32 or more gives 0.
  unfoldable pub has_room : PostageStampResponse → Bool
  unfolding shift
  has_room b =
      let k = shift b.depth b.bucket_depth in if ltb k 32 then ltb b.utilization (2 ^ k) else false

  unfoldable pub is_reusable : String → PostageStampResponse → Bool
  unfolding has_room
  is_reusable label b =
      b.exists
      && not b.immutable_flag
      && str_eq b.label label
      && b.usable
      && (eqb_ℤ b.batch_ttl (negsuc 0) || ltb_ℤ (pos 0) b.batch_ttl)
      && has_room b

  unfoldable pub find_reusable : String → List PostageStampResponse → Option String
  unfolding is_reusable
  find_reusable label [] = none
  find_reusable label (b ∷ batches) =
      let rest = find_reusable label batches in
      if is_reusable label b then some b.batch_id else rest

  -- The amount for the time, 1 where the price is not positive; a block time of 0 panics.
  unfoldable pub amount_of : ℤ → ℤ → ℤ → Outcome BuyError ℤ
  unfolding quot
  amount_of postage_ttl block_time price =
      if leb_ℤ price (pos 0)
      then ok (pos 1)
      else if eqb_ℤ block_time (pos 0)
      then panic
      else ok (wrap64 (wrap64 (quot (seconds postage_ttl) block_time) *ℤ price))

  unfoldable pub reuse_or_create : Outcome BuyError ℤ → ℕ → String → Bought String
  unfolding find_reusable create_postage_batch
  reuse_or_create (err e) depth label = (err e, [])
  reuse_or_create panic depth label = (panic, [])
  reuse_or_create (ok amount) depth label = elim api.batches [
    | none ↦ (err postage_batches, [])
    | some batches ↦ elim (find_reusable label batches) [
      | some id ↦ (ok id, [])
      | none ↦ create_postage_batch amount depth label false
    ]
  ]

  unfoldable pub get_or_create_mutable_batch : ℤ → ℕ → String → Bought String
  unfolding amount_of reuse_or_create
  get_or_create_mutable_batch postage_ttl depth label = elim api.current_price [
    | none ↦ (err chain_state, [])
    | some price ↦ elim api.block_time [
      | none ↦ (err fetch_block_time, [])
      | some block_time ↦ reuse_or_create (amount_of postage_ttl block_time price) depth label
    ]
  ]

  -- The 60 questions whether a change has come through; an error ends them.
  unfoldable pub wait_changed : (PostageStampResponse → Bool) → ℕ → ℕ → Outcome BuyError (Unit {0})
  wait_changed changed zero i = err timed_out
  wait_changed changed (suc rounds) i =
      let rest = wait_changed changed rounds (suc i) in
      elim (api.stamp i) [ none ↦ err call_failed | some b ↦ if changed b then ok tt else rest ]

  unfoldable pub change_batch :
      (PostageStampResponse → PostageStampResponse → Bool) → Call → Bought (Unit {0})
  unfolding wait_changed
  change_batch changed call = elim api.stamp_before [
    | none ↦ (err batch_details, [])
    | some batch ↦
        if api.sends call
        then (wait_changed (changed batch) 60 0, call ∷ [])
        else (err call_failed, call ∷ [])
  ]

  unfoldable pub top_up_postage_batch : String → ℤ → Bought (Unit {0})
  unfolding change_batch
  top_up_postage_batch batch_id amount =
      change_batch (λ batch b. ltb_ℤ batch.amount b.amount) (top_up batch_id amount)

  unfoldable pub dilute_postage_batch : String → ℕ → Bought (Unit {0})
  unfolding change_batch
  dilute_postage_batch batch_id depth =
      change_batch (λ batch b. ltb batch.depth b.depth) (dilute batch_id depth)
