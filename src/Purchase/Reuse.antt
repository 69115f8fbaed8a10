-- ===== src/Purchase/Reuse.antt =====
-- When `GetOrCreateMutableBatch` of pkg/bee/client.go buys a batch, and which batch it uses else.
use beekeeper.Common.{
  ℕ, ◌+◌, ◌-◌, ◌%◌, ◌^◌, ◌<◌, ◌≡◌, refl, ◌↔◌, ◌⊎◌, ◌≢◌, inl, inr, Bool, true, false, not, ◌&&◌,
  ◌||◌, if◌then◌else◌, Option, none, some, List, [], ◌∷◌, ◌++◌, String, str_eq, eq_iff, All, arith,
  ltb, Bool-cases,
}
use beekeeper.Common.Int.{ℤ, pos, negsuc, ltb_ℤ, leb_ℤ, eqb_ℤ, eqb_ℤ_iff, wrap64, ◌*ℤ◌, quot}
use beekeeper.Stamper.Seconds.{seconds}
use beekeeper.Common.Outcome.{ok}
use beekeeper.Stamper.Batch.{PostageStampResponse, shift}
use beekeeper.Purchase.Buy.{
  BatchApi, create_postage_batch, has_room, is_reusable, find_reusable, amount_of, reuse_or_create,
  get_or_create_mutable_batch,
}

-- What each of two tests says, both say together.
and_iff :
    {P Q : Type 0} (a b : Bool) → (a ≡ true) ↔ P → (b ≡ true) ↔ Q → ((a && b) ≡ true) ↔ (P × Q)
and_iff true b (f, g) (f', g') = ((λ h. (f refl, f' h)), (λ h. g' h.1))
and_iff false b (f, g) (f', g') = ((λ h. cc), (λ h. let q = g h.0 in cc))

is_not_iff : (a : Bool) → (not a ≡ true) ↔ (a ≡ false)
is_not_iff true = ((λ h. cc), (λ h. cc))
is_not_iff false = ((λ h. refl), (λ h. refl))

-- A batch of the label that may be used again: it exists, is mutable and usable, has no end or time
-- left, and the fullest of its buckets, of 2 to the difference of the depths as bytes, has room.
abbrev pub IsReusable : String → PostageStampResponse → Type 0
IsReusable label b =
    (b.exists ≡ true)
    × (b.immutable_flag ≡ false)
    × (b.label ≡ label)
    × (b.usable ≡ true)
    × ((b.batch_ttl ≡ negsuc 0) ⊎ (ltb_ℤ (pos 0) b.batch_ttl ≡ true))
    × ((b.depth + 256 - b.bucket_depth) % 256 < 32)
    × (b.utilization < 2 ^ ((b.depth + 256 - b.bucket_depth) % 256))

has_room_iff :
    (api : BatchApi) (b : PostageStampResponse)
    → (has_room api b ≡ true) ↔ (
        ((b.depth + 256 - b.bucket_depth) % 256 < 32)
        × (b.utilization < 2 ^ ((b.depth + 256 - b.bucket_depth) % 256)))
unfolding has_room shift
has_room_iff api b =
    by_room ((b.depth + 256 - b.bucket_depth) % 256) (2 ^ ((b.depth + 256 - b.bucket_depth) % 256))
  where
    by_room :
        (k p : ℕ)
        → ((if ltb k 32 then ltb b.utilization p else false) ≡ true)
          ↔ ((k < 32) × (b.utilization < p))
    by_room k p = ((λ h. ground arith), (λ h. ground arith))

has_time_iff :
    (ttl : ℤ)
    → ((eqb_ℤ ttl (negsuc 0) || ltb_ℤ (pos 0) ttl) ≡ true)
      ↔ ((ttl ≡ negsuc 0) ⊎ (ltb_ℤ (pos 0) ttl ≡ true))
has_time_iff ttl =
    let (f, g) = eqb_ℤ_iff ttl (negsuc 0) in
    elim (Bool-cases (eqb_ℤ ttl (negsuc 0))) [
      | inl e ↦ ((λ h. inl (f e)), (λ h. rw e refl))
      | inr e ↦ rw e ((λ h. inr h), (λ h. elim h [ inl q ↦ let r = g q in cc | inr q ↦ q ]))
    ]

is_reusable_iff :
    (api : BatchApi) (label : String) (b : PostageStampResponse)
    → (is_reusable api label b ≡ true) ↔ IsReusable label b
unfolding is_reusable
is_reusable_iff api label b =
    let exists_mutable =
      and_iff b.exists (not b.immutable_flag) ((λ h. h), (λ h. h)) (is_not_iff b.immutable_flag) in
    let labelled = and_iff _ (str_eq b.label label) exists_mutable (eq_iff b.label label) in
    let usable = and_iff _ b.usable labelled ((λ h. h), (λ h. h)) in
    let lasting = and_iff _ _ usable (has_time_iff b.batch_ttl) in
    let (f, g) = and_iff _ (has_room api b) lasting (has_room_iff api b) in
    (
      (λ h. let (((((e, m), l), u), t), (d, r)) = f h in (e, m, l, u, t, d, r)),
      (λ (e, m, l, u, t, d, r). g (((((e, m), l), u), t), (d, r))),
    )

-- The amount for a time: 1 where the price is not positive, and else the number of whole blocks in
-- the time, in seconds, by the price, which needs a block time other than 0.
abbrev pub IsAmount : ℤ → ℤ → ℤ → ℤ → Type 0
IsAmount postage_ttl block_time price amount =
    ((leb_ℤ price (pos 0) ≡ true) × (amount ≡ pos 1))
    ⊎ ((leb_ℤ price (pos 0) ≡ false)
        × (block_time ≢ pos 0)
        × (amount ≡ wrap64 (wrap64 (quot (seconds postage_ttl) block_time) *ℤ price)))

amount_of-IsAmount :
    (api : BatchApi) (postage_ttl block_time price amount : ℤ)
    → IsAmount postage_ttl block_time price amount
    → amount_of api postage_ttl block_time price ≡ ok amount
unfolding amount_of
amount_of-IsAmount api postage_ttl block_time price amount (inl (l, e)) = rw (amount_of, l, e) refl
amount_of-IsAmount api postage_ttl block_time price amount (inr (l, n, e)) =
    elim (Bool-cases (eqb_ℤ block_time (pos 0))) [
      | inl z ↦ absurd (n ((eqb_ℤ_iff block_time (pos 0)).0 z))
      | inr z ↦ rw (amount_of, l, z, e) refl
    ]

module _ (api : BatchApi) (label : String) where
  -- The first of the batches that can be used, or that none can.
  FirstReusable : List PostageStampResponse → Option String → Type 0
  FirstReusable batches r =
      ((before after : List PostageStampResponse) × (b : PostageStampResponse) × (batches
          ≡ before ++ b ∷ after)
        × All (λ x. ¬ IsReusable label x) before
        × IsReusable label b
        × (r ≡ some b.batch_id))
      ⊎ (All (λ x. ¬ IsReusable label x) batches × (r ≡ none))

  find_reusable-FirstReusable :
      (batches : List PostageStampResponse)
      → FirstReusable batches (find_reusable api label batches)
  unfolding find_reusable FirstReusable
  find_reusable-FirstReusable [] = inr (tt, refl)
  find_reusable-FirstReusable (b ∷ batches) =
      let (f, g) = is_reusable_iff api label b in
      elim (Bool-cases (is_reusable api label b)) [
        | inl e ↦ inl ([], batches, b, refl, tt, f e, rw (e, find_reusable) refl)
        | inr e ↦
            let no : ¬ IsReusable label b = λ r. let q = g r in cc in
            elim (find_reusable-FirstReusable batches) [
              | inl (before, after, c, s, n, u, q) ↦
                  inl (b ∷ before, after, c, rw s refl, (no, n), u, rw (e, find_reusable) q)
              | inr (n, q) ↦ inr ((no, n), rw (e, find_reusable) q)
            ]
      ]

  -- With the price, the block time and the batches of the node at hand, and an amount that is 1 if
  -- the price is not positive and else the whole blocks of the time by the price, the block time not
  -- 0, `GetOrCreateMutableBatch` either returns the first batch that exists, is mutable, has the
  -- label, is usable, has time left or no end, and has room in its fullest bucket, and makes no call;
  -- or there is no such batch, and it ends as the purchase of a new batch with this amount does.
  pub get_or_create_mutable_batch-first :
      (postage_ttl price block_time amount : ℤ) (depth : ℕ) (batches : List PostageStampResponse)
      → api.current_price ≡ some price
      → api.block_time ≡ some block_time
      → api.batches ≡ some batches
      → IsAmount postage_ttl block_time price amount
      → ((before after : List PostageStampResponse) × (b : PostageStampResponse) × (batches
            ≡ before ++ b ∷ after)
          × All (λ x. ¬ IsReusable label x) before
          × IsReusable label b
          × (get_or_create_mutable_batch api postage_ttl depth label ≡ (ok b.batch_id, [])))
        ⊎ (All (λ x. ¬ IsReusable label x) batches
            × (get_or_create_mutable_batch api postage_ttl depth label
                ≡ create_postage_batch api amount depth label false))
  unfolding get_or_create_mutable_batch reuse_or_create FirstReusable
  get_or_create_mutable_batch-first postage_ttl price block_time amount depth batches p t l
        amount_is =
      let a = amount_of-IsAmount api postage_ttl block_time price amount amount_is in
      elim (find_reusable-FirstReusable batches) [
        | inl (before, after, b, s, n, u, q) ↦
            inl (before, after, b, s, n, u, rw (p, t, a, reuse_or_create, l, q) refl)
        | inr (n, q) ↦ inr (n, rw (p, t, a, reuse_or_create, l, q) refl)
      ]
