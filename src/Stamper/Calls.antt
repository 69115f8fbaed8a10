-- ===== src/Stamper/Calls.antt =====
-- Which calls `Set` makes on a node (pkg/stamper/node.go): each is justified by a batch, and each
-- batch that is used enough is diluted.
use beekeeper.Common.{
  ℕ, ◌+◌, ◌%◌, ◌^◌, ◌≡◌, ◌⊎◌, inl, inr, refl, Bool, true, false, ◌||◌, List, [], ◌∷◌, arith, All,
  In, Bool-cases, ◌&&◌, String, not,
}
use beekeeper.Common.Int.{ℤ, pos, ◌-ℤ◌, ◌≤ℤ◌, wrap64, leb_ℤ, ltb_ℤ}
use beekeeper.Common.Outcome.{Outcome, ok, err, panic}
use beekeeper.Stamper.Batch.{PostageStampResponse, Options, is_valid_batch}
use beekeeper.Stamper.Node.{
  PostageApi, Call, create_batch, top_up, dilute, Settings, Action, lift, pure, and_then, ◌>>=◌,
  NodeError, amount_for, handle_topup, send, handle_dilution, needs_dilution, remaining_ttl,
  shorten, batch_duration, dilute_if_needed, set_valid_batch, set_batch, set_batches, set_node,
  get_price, invalid_price, get_postage_batches,
}

module _ (api : PostageApi) where
  -- A call, and a result that follows it: the log grows by the call.
  send-log :
      {A : Type 0} (c : Call) (a : A) (log : List Call)
      → ((send api c >>= λ _. pure a) log).1 ≡ c ∷ log
  unfolding send
  send-log c a log = ground arith

  after_amount :
      (P : Call → Type 0) (id : String) (log : List Call) (r : Outcome NodeError ℤ)
      → All P log
      → ((amount : ℤ) → r ≡ ok amount → P (top_up id amount))
      → All P ((lift r >>= λ amount. send api (top_up id amount) >>= λ _. pure true) log).1
  after_amount P id log (ok amount) h j =
      rw (send-log (top_up id amount) true log) (j amount refl, h)
  after_amount P id log (err e) h j = h
  after_amount P id log panic h j = h

  handle_topup-All :
      (P : Call → Type 0) (batch : PostageStampResponse) (threshold target ttl b price : ℤ)
      (log : List Call)
      → All P log
      → ((amount : ℤ)
          → ttl ≤ℤ threshold
          → amount_for (wrap64 (target -ℤ ttl)) b price ≡ ok amount
          → P (top_up batch.batch_id amount))
      → All P (handle_topup api batch threshold target ttl b price log).1
  unfolding handle_topup
  handle_topup-All P batch threshold target ttl b price log h j =
      elim (Bool-cases (leb_ℤ ttl threshold && ltb_ℤ (pos 0) (wrap64 (target -ℤ ttl)))) [
        | inl e ↦
            rw (e, handle_topup)
              (after_amount P batch.batch_id log _ h (λ amount q. j amount (ground arith) q))
        | inr e ↦ rw (e, handle_topup) h
      ]

  handle_dilution-log :
      (batch : PostageStampResponse) (extra : ℕ) (log : List Call)
      → (handle_dilution api batch extra log).1
        ≡ dilute batch.batch_id ((batch.depth + extra) % 2 ^ 16) ∷ log
  unfolding handle_dilution send
  handle_dilution-log batch extra log = ground arith

  handle_dilution-result :
      (batch : PostageStampResponse) (extra : ℕ) (log : List Call)
      → ((handle_dilution api batch extra log).0 ≡ ok true)
        ⊎ ((e : NodeError) × ((handle_dilution api batch extra log).0 ≡ err e))
  unfolding handle_dilution send
  handle_dilution-result batch extra log = ground arith

-- An action keeps what holds of every call so far.
abbrev Keeps : {A : Type 0} → (List Call → Type 0) → Action A → Type 0
Keeps R m = (log : List Call) → R log → R (m log).1

module _ (R : List Call → Type 0) {A B : Type 0} where
  and_then-Keeps :
      (r : Outcome NodeError A) (f : A → Action B)
      → ((a : A) → r ≡ ok a → Keeps R (f a))
      → (log : List Call) → R log
      → R (and_then r f log).1
  and_then-Keeps (ok a) f k log h = k a refl log h
  and_then-Keeps (err e) f k log h = h
  and_then-Keeps panic f k log h = h

  bind-Keeps :
      (m : Action A) (f : A → Action B) → Keeps R m → ((a : A) → Keeps R (f a)) → Keeps R (m >>= f)
  bind-Keeps m f km kf log h = and_then-Keeps (m log).0 f (λ a _. kf a) (m log).1 (km log h)

module _ (api : PostageApi) (s : Settings) (price : ℤ) (opts : Options) where
  -- The time to live that a batch has left: shortened for the extra depth if its usage is at the
  -- threshold or above, so that it will be diluted, and else the batch's own.
  abbrev pub IsRemaining : PostageStampResponse → ℤ → Type 0
  IsRemaining batch ttl =
      ((needs_dilution s batch ≡ true) × (shorten (batch_duration batch) s.extra_depth ≡ ok ttl))
      ⊎ ((needs_dilution s batch ≡ false) × (ttl ≡ batch_duration batch))

  remaining_ttl-IsRemaining :
      (batch : PostageStampResponse) (ttl : ℤ)
      → remaining_ttl s batch ≡ ok ttl
      → IsRemaining batch ttl
  unfolding remaining_ttl
  remaining_ttl-IsRemaining batch ttl h = elim (Bool-cases (needs_dilution s batch)) [
    | inl e ↦ inl (e, rw (remaining_ttl, e) at h)
    | inr e ↦
        let h' : ok (batch_duration batch) ≡ ok ttl = rw (remaining_ttl, e) at h in inr (e, cc)
  ]

  -- The reason for a call on a batch.
  abbrev pub IsDueFor : PostageStampResponse → Call → Type 0
  IsDueFor batch (create_batch amount depth label) = ⊥
  IsDueFor batch (top_up id amount) =
      (is_valid_batch batch opts ≡ true)
      × (id ≡ batch.batch_id)
      × (ttl : ℤ) × IsRemaining batch ttl
      × (ttl ≤ℤ s.ttl_threshold)
      × (amount_for (wrap64 (s.top_up_final_ttl -ℤ ttl)) s.seconds_per_block price ≡ ok amount)
  IsDueFor batch (dilute id depth) =
      (is_valid_batch batch opts ≡ true)
      × (id ≡ batch.batch_id)
      × (needs_dilution s batch ≡ true)
      × (depth ≡ (batch.depth + s.extra_depth) % 2 ^ 16)

  dilute_if_needed-Keeps :
      (P : Call → Type 0) (batch : PostageStampResponse)
      → is_valid_batch batch opts ≡ true
      → ((c : Call) → IsDueFor batch c → P c)
      → Keeps (All P) (dilute_if_needed api s batch)
  unfolding dilute_if_needed
  dilute_if_needed-Keeps P batch v due log h = elim (Bool-cases (needs_dilution s batch)) [
    | inl e ↦ rw (e, dilute_if_needed, handle_dilution-log) (due _ (v, refl, e, refl), h)
    | inr e ↦ rw (e, dilute_if_needed) h
  ]

  set_valid_batch-Keeps :
      (P : Call → Type 0) (batch : PostageStampResponse) (ttl : ℤ)
      → is_valid_batch batch opts ≡ true
      → IsRemaining batch ttl
      → ((c : Call) → IsDueFor batch c → P c)
      → Keeps (All P) (set_valid_batch api s batch price ttl)
  unfolding set_valid_batch
  set_valid_batch-Keeps P batch ttl v e due log h =
      elim (Bool-cases (ltb_ℤ s.ttl_threshold ttl && not (needs_dilution s batch))) [
        | inl q ↦ rw (q, set_valid_batch) h
        | inr q ↦
            rw (q, set_valid_batch) (bind-Keeps (All P) topup finish topup_keeps finish_keeps log h)
      ]
    where
      topup : Action Bool
      topup =
          handle_topup api batch s.ttl_threshold s.top_up_final_ttl ttl s.seconds_per_block price

      finish : Bool → Action (Bool × Bool)
      finish topped = dilute_if_needed api s batch >>= λ diluted. pure (topped, diluted)

      topup_keeps : Keeps (All P) topup
      topup_keeps log' h' =
          handle_topup-All api P batch s.ttl_threshold s.top_up_final_ttl ttl s.seconds_per_block
            price log' h'
            λ amount below a. due (top_up batch.batch_id amount) (v, refl, ttl, e, below, a)

      finish_keeps : (topped : Bool) → Keeps (All P) (finish topped)
      finish_keeps topped =
          bind-Keeps (All P) (dilute_if_needed api s batch) (λ diluted. pure (topped, diluted))
            (dilute_if_needed-Keeps P batch v due) (λ diluted log' h'. h')

  set_batch-Keeps :
      (P : Call → Type 0) (batch : PostageStampResponse)
      → ((c : Call) → IsDueFor batch c → P c)
      → Keeps (All P) (set_batch api s batch price opts)
  unfolding set_batch
  set_batch-Keeps P batch due log h = elim (Bool-cases (is_valid_batch batch opts)) [
    | inr q ↦ rw (q, set_batch) h
    | inl v ↦
        rw (v, set_batch)
          (and_then-Keeps (All P) (remaining_ttl s batch) (set_valid_batch api s batch price)
            (λ ttl e.
              set_valid_batch-Keeps P batch ttl v (remaining_ttl-IsRemaining batch ttl e) due)
            log h)
  ]

  set_batches-Keeps :
      (P : Call → Type 0) (batches : List PostageStampResponse) (topped diluted : Bool)
      → ((batch : PostageStampResponse) (c : Call) → In batch batches → IsDueFor batch c → P c)
      → Keeps (All P) (set_batches api s batches price opts topped diluted)
  unfolding set_batches
  set_batches-Keeps P [] topped diluted due = λ log h. h
  set_batches-Keeps P (batch ∷ batches) topped diluted due =
      bind-Keeps (All P) (set_batch api s batch price opts)
        (λ done. set_batches api s batches price opts (topped || done.0) (diluted || done.1))
        (set_batch-Keeps P batch (λ c. due batch c (inl refl)))
        λ done. set_batches-Keeps P batches _ _ (λ b c i. due b c (inr i))

  -- A call is justified by one of the batches.
  abbrev pub IsJustified : List PostageStampResponse → Call → Type 0
  IsJustified batches c = (batch : PostageStampResponse) × In batch batches × IsDueFor batch c

module _ (api : PostageApi) where
  get_postage_batches-result :
      (price : ℤ) (batches : List PostageStampResponse)
      → api.current_price ≡ ok price
      → api.batches ≡ ok batches
      → (log : List Call) → leb_ℤ price (pos 0) ≡ false
      → get_postage_batches api true log ≡ (ok (batches, price), log)
  unfolding get_postage_batches get_price
  get_postage_batches-result price batches e f log g = rw (e, f) (rw (g, get_price) refl)

  get_postage_batches-invalid :
      (price : ℤ)
      → api.current_price ≡ ok price
      → (log : List Call) → leb_ℤ price (pos 0) ≡ true
      → get_postage_batches api true log ≡ (err invalid_price, log)
  unfolding get_postage_batches get_price
  get_postage_batches-invalid price e log g = rw e (rw (g, get_price) refl)

-- Every call that `Set` makes on a node is justified by a batch that the node reported and that is
-- valid under the options: a top-up by a remaining time to live at the threshold or below, that of
-- the batch or, if its usage is at the threshold or above, that shortened for the extra depth, with
-- the amount for the time missing to the target; a dilution by a usage at the threshold or above, to
-- the batch's depth plus the extra depth.
pub set_node-IsJustified :
    (api : PostageApi) (s : Settings) (opts : Options) (price : ℤ)
    (batches : List PostageStampResponse)
    → api.current_price ≡ ok price
    → api.batches ≡ ok batches
    → All (IsJustified api s price opts batches) (set_node api s opts []).1
unfolding set_node
set_node-IsJustified api s opts price batches e f = elim (Bool-cases (leb_ℤ price (pos 0))) [
  | inl q ↦ rw (get_postage_batches-invalid api price e [] q) tt
  | inr q ↦ rw (get_postage_batches-result api price batches e f [] q) (
      set_batches-Keeps api s price opts (IsJustified api s price opts batches) batches false false
        (λ batch c i due. (batch, i, due)) [] tt)
]
