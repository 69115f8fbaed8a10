-- ===== src/Stamper/Node.antt =====
-- The operations of `stamperNode` in pkg/stamper/node.go. The node's HTTP API is a parameter; each
-- call of it that changes a batch is logged, and an answer may depend on the calls before it.
use beekeeper.Common.{
  ℕ, ◌+◌, ◌-◌, ◌%◌, ◌^◌, Bool, true, false, not, ◌&&◌, ◌||◌, List, [], ◌∷◌, if◌then◌else◌, ltb,
  ◌==◌, String,
}
use beekeeper.Common.Int.{ℤ, pos, negsuc, ◌-ℤ◌, ◌*ℤ◌, leb_ℤ, ltb_ℤ, eqb_ℤ, wrap64, quot}
use beekeeper.Common.Outcome.{Outcome, ok, err, panic}
use beekeeper.Stamper.Seconds.{seconds, second}
use beekeeper.Stamper.Batch.{
  PostageStampResponse, Fraction, Options, batch_usage, at_least, is_valid_batch,
}

pub data Call : Type 0 where
  create_batch : (amount : ℤ) (depth : ℕ) (label : String) → Call
  top_up : (batch_id : String) (amount : ℤ) → Call
  dilute : (batch_id : String) (depth : ℕ) → Call

pub data NodeError : Type 0 where
  chain_state invalid_price postage_batches call_failed : NodeError

abbrev pub Action : Type 0 → Type 0
Action A = List Call → Outcome NodeError A × List Call

module _ {A : Type 0} where
  abbrev pub pure : A → Action A
  pure a log = (ok a, log)

  abbrev pub throw : NodeError → Action A
  throw e log = (err e, log)

module _ {A B : Type 0} where
  abbrev pub and_then : Outcome NodeError A → (A → Action B) → Action B
  and_then (ok a) f log = f a log
  and_then (err e) f log = (err e, log)
  and_then panic f log = (panic, log)

  infixl 5 ◌>>=◌ ◌>>◌
  abbrev pub ◌>>=◌ : Action A → (A → Action B) → Action B
  ◌>>=◌ m f log = let (r, log') = m log in and_then r f log'

  abbrev pub ◌>>◌ : Action A → Action B → Action B
  m >> k = m >>= λ _. k

-- The answers of a node: the current price, the batches, and whether a call succeeds.
pub record PostageApi : Type 0 where
  pub current_price : Outcome NodeError ℤ
  pub batches : Outcome NodeError (List PostageStampResponse)
  pub succeeds : List Call → Call → Bool

-- `(int64(d.Seconds()) / secondsPerBlock) * price`: a zero divisor panics, and the product wraps.
unfoldable pub amount_for : ℤ → ℤ → ℤ → Outcome NodeError ℤ
amount_for d seconds_per_block price =
    if eqb_ℤ seconds_per_block (pos 0)
    then panic
    else ok (wrap64 (wrap64 (quot (seconds d) seconds_per_block) *ℤ price))

-- `batchTTL / (1 << extraDepth)`, the divisor an int64.
unfoldable pub shorten : ℤ → ℕ → Outcome NodeError ℤ
shorten ttl extra_depth =
    if ltb extra_depth 63
    then ok (quot ttl (pos (2 ^ extra_depth)))
    else if extra_depth == 63
    then ok (wrap64 (quot ttl (negsuc (2 ^ 63 - 1))))
    else panic

abbrev pub lift : {A : Type 0} → Outcome NodeError A → Action A
lift r log = (r, log)

-- `time.Duration(batch.BatchTTL) * time.Second`
abbrev pub batch_duration : PostageStampResponse → ℤ
batch_duration batch = wrap64 (batch.batch_ttl *ℤ pos second)

module _ (api : PostageApi) where
  -- A call that changes a batch, over the network.
  unfoldable pub send : Call → Action (Unit {0})
  send c log = (if api.succeeds log c then ok tt else err call_failed, c ∷ log)

  unfoldable pub get_price : Action ℤ
  get_price = do
    price ← lift api.current_price
    if leb_ℤ price (pos 0) then throw invalid_price else pure price

  -- With `needPrice` the price comes first, and is 0 otherwise.
  unfoldable pub get_postage_batches : Bool → Action (List PostageStampResponse × ℤ)
  unfolding get_price
  get_postage_batches need_price = do
    price ← (if need_price then get_price else pure (pos 0))
    batches ← lift api.batches
    pure (batches, price)

  unfoldable pub create : ℤ → ℕ → String → ℤ → Action (Unit {0})
  unfolding get_price amount_for send
  create duration depth postage_label seconds_per_block = do
    price ← get_price
    amount ← lift (amount_for duration seconds_per_block price)
    send (create_batch amount depth postage_label)

  -- `uint16(batch.Depth) + extraDepth` wraps at 16 bits.
  unfoldable pub handle_dilution : PostageStampResponse → ℕ → Action Bool
  unfolding send
  handle_dilution batch extra_depth = do
    send (dilute batch.batch_id ((batch.depth + extra_depth) % 2 ^ 16))
    pure true

  unfoldable pub handle_topup : PostageStampResponse → ℤ → ℤ → ℤ → ℤ → ℤ → Action Bool
  unfolding amount_for send
  handle_topup batch ttl_threshold top_up_final_ttl batch_ttl seconds_per_block price =
      let top_up_ttl = wrap64 (top_up_final_ttl -ℤ batch_ttl) in
      if leb_ℤ batch_ttl ttl_threshold && ltb_ℤ (pos 0) top_up_ttl
      then (do
        amount ← lift (amount_for top_up_ttl seconds_per_block price)
        send (top_up batch.batch_id amount)
        pure true)
      else pure false

  -- The loop of `Dilute` returns at the first valid batch that is used enough.
  unfoldable pub dilute_first : List PostageStampResponse → Fraction → ℕ → Options → Action Bool
  unfolding is_valid_batch batch_usage at_least handle_dilution
  dilute_first [] threshold depth_increment opts = pure false
  dilute_first (batch ∷ batches) threshold depth_increment opts =
      let rest = dilute_first batches threshold depth_increment opts in
      if is_valid_batch batch opts && at_least (batch_usage batch) threshold
      then handle_dilution batch depth_increment
      else rest

  unfoldable pub dilute_node : Fraction → ℕ → Options → Action Bool
  unfolding get_postage_batches dilute_first
  dilute_node threshold depth_increment opts = do
    (batches, _) ← get_postage_batches false
    dilute_first batches threshold depth_increment opts

  -- The loop of `Topup` returns at the first valid batch.
  unfoldable pub topup_first : List PostageStampResponse → ℤ → ℤ → ℤ → ℤ → Options → Action Bool
  unfolding is_valid_batch handle_topup
  topup_first [] ttl_threshold top_up_final_ttl seconds_per_block price opts = pure false
  topup_first (batch ∷ batches) ttl_threshold top_up_final_ttl seconds_per_block price opts =
      let rest = topup_first batches ttl_threshold top_up_final_ttl seconds_per_block price opts in
      if is_valid_batch batch opts
      then handle_topup batch ttl_threshold top_up_final_ttl (batch_duration batch)
          seconds_per_block price
      else rest

  unfoldable pub topup_node : ℤ → ℤ → ℤ → Options → Action Bool
  unfolding get_postage_batches topup_first
  topup_node ttl_threshold top_up_final_ttl seconds_per_block opts = do
    (batches, price) ← get_postage_batches true
    topup_first batches ttl_threshold top_up_final_ttl seconds_per_block price opts

-- What `Set` is told: the two thresholds, the target and the extra depth.
pub record Settings : Type 0 where
  pub ttl_threshold : ℤ
  pub top_up_final_ttl : ℤ
  pub utilization_threshold : Fraction
  pub extra_depth : ℕ
  pub seconds_per_block : ℤ

module _ (s : Settings) where
  unfoldable pub needs_dilution : PostageStampResponse → Bool
  unfolding batch_usage at_least
  needs_dilution batch = at_least (batch_usage batch) s.utilization_threshold

  -- The time to live that a batch has left, after the dilution that it needs.
  unfoldable pub remaining_ttl : PostageStampResponse → Outcome NodeError ℤ
  unfolding needs_dilution shorten
  remaining_ttl batch =
      if needs_dilution batch
      then shorten (batch_duration batch) s.extra_depth
      else ok (batch_duration batch)

module _ (api : PostageApi) (s : Settings) where
  unfoldable pub dilute_if_needed : PostageStampResponse → Action Bool
  unfolding needs_dilution handle_dilution
  dilute_if_needed batch =
      if needs_dilution s batch then handle_dilution api batch s.extra_depth else pure false

  unfoldable pub set_valid_batch : PostageStampResponse → ℤ → ℤ → Action (Bool × Bool)
  unfolding dilute_if_needed handle_topup
  set_valid_batch batch price batch_ttl =
      if ltb_ℤ s.ttl_threshold batch_ttl && not (needs_dilution s batch)
      then pure (false, false)
      else (do
        topped ←
            handle_topup api batch s.ttl_threshold s.top_up_final_ttl batch_ttl s.seconds_per_block
              price
        diluted ← dilute_if_needed batch
        pure (topped, diluted))

  -- One round of the loop of `Set`: whether it topped up, and whether it diluted.
  unfoldable pub set_batch : PostageStampResponse → ℤ → Options → Action (Bool × Bool)
  unfolding remaining_ttl is_valid_batch set_valid_batch
  set_batch batch price opts =
      if is_valid_batch batch opts
      then lift (remaining_ttl s batch) >>= set_valid_batch batch price
      else pure (false, false)

  unfoldable pub set_batches :
      List PostageStampResponse → ℤ → Options → Bool → Bool → Action (Bool × Bool)
  unfolding set_batch
  set_batches [] price opts topped diluted = pure (topped, diluted)
  set_batches (batch ∷ batches) price opts topped diluted = do
    (t, d) ← set_batch batch price opts
    set_batches batches price opts (topped || t) (diluted || d)

  unfoldable pub set_node : Options → Action (Bool × Bool)
  unfolding get_postage_batches set_batches
  set_node opts = do
    (batches, price) ← get_postage_batches api true
    set_batches batches price opts false false
