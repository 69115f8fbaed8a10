-- ===== src/Purchase/Changed.antt =====
-- What the node answers when a change of a batch is confirmed in pkg/bee/client.go.
use beekeeper.Common.{
  ℕ, zero, suc, ◌+◌, ◌≤◌, ◌<◌, ◌≡◌, refl, ◌↔◌, inl, inr, Bool, true, false, Option, none, some,
  arith, String, Bool-cases,
}
use native.Mathlib.Decide.{ℕ_discrete}
use beekeeper.Common.Int.{ℤ, ltb_ℤ}
use beekeeper.Common.Outcome.{ok}
use beekeeper.Stamper.Batch.{PostageStampResponse}
use beekeeper.Stamper.Node.{Call, top_up}
use beekeeper.Purchase.Buy.{BatchApi, wait_changed, change_batch, top_up_postage_batch}

module _ (api : BatchApi) where
  module _ (changed : PostageStampResponse → Bool) where
    -- An answer that has the batch as it was.
    abbrev pub IsUnchanged : Option PostageStampResponse → Type 0
    IsUnchanged none = ⊥
    IsUnchanged (some b) = changed b ≡ false

    -- From number `i` on, the answers have the batch unchanged up to one, within the rounds, that has
    -- it changed.
    abbrev pub BecomesChanged : ℕ → ℕ → Type 0
    BecomesChanged i rounds =
        (j : ℕ) × (b : PostageStampResponse) × (i ≤ j)
        × (j < i + rounds)
        × (api.stamp j ≡ some b)
        × (changed b ≡ true)
        × ((k : ℕ) → i ≤ k → k < j → IsUnchanged (api.stamp k))

    sooner :
        (i rounds : ℕ)
        → IsUnchanged (api.stamp i)
        → BecomesChanged (suc i) rounds
        → BecomesChanged i (suc rounds)
    sooner i rounds p (j, b, l, u, e, x, before) = (j, b, omega arith, omega arith, e, x, earlier)
      where
        earlier : (k : ℕ) → i ≤ k → k < j → IsUnchanged (api.stamp k)
        earlier k a c = elim (ℕ_discrete i k) [
          | yes same ↦ rw (← same) p
          | no other ↦ before k (omega arith) c
        ]

    later :
        (i rounds : ℕ)
        → IsUnchanged (api.stamp i)
        → BecomesChanged i (suc rounds)
        → BecomesChanged (suc i) rounds
    later i rounds p (j, b, l, u, e, x, before) = elim (ℕ_discrete i j) [
      | yes same ↦ absurd (unchanged (rw (← same) p) e x)
      | no other ↦ (j, b, omega arith, omega arith, e, x, λ k a c. before k (omega arith) c)
    ]
      where
        unchanged : IsUnchanged (api.stamp j) → api.stamp j ≡ some b → changed b ≡ true → ⊥
        unchanged p' e' x' = let q = rw e' at p' in ground arith

    fails_now : (i rounds : ℕ) → api.stamp i ≡ none → BecomesChanged i rounds → ⊥
    fails_now i rounds e (j, b, l, u, f, x, before) = elim (ℕ_discrete i j) [
      | yes same ↦ let g = rw (← same) at f in ground arith
      | no other ↦ let q = before i (omega arith) (omega arith) in rw e at q
    ]

    wait_changed_iff :
        (rounds i : ℕ) → (wait_changed api changed rounds i ≡ ok tt) ↔ BecomesChanged i rounds
    unfolding wait_changed
    wait_changed_iff zero i = ((λ h. cc), (λ (j, b, l, m, e, x, before). absurd (omega arith)))
    wait_changed_iff (suc rounds) i = answered (api.stamp i) refl (wait_changed_iff rounds (suc i))
      where
        answered :
            (r : Option PostageStampResponse)
            → api.stamp i ≡ r
            → (wait_changed api changed rounds (suc i) ≡ ok tt) ↔ BecomesChanged (suc i) rounds
            → (wait_changed api changed (suc rounds) i ≡ ok tt) ↔ BecomesChanged i (suc rounds)
        answered none e rest =
            rw (e, wait_changed) ((λ h. cc), (λ h. absurd (fails_now i (suc rounds) e h)))
        answered (some b) e (f, g) = elim (Bool-cases (changed b)) [
          | inl u ↦
              rw (e, u, wait_changed)
                (
                  (λ h. (i, b, omega arith, omega arith, e, u, λ k a c. absurd (omega arith))),
                  (λ h. refl),
                )
          | inr u ↦
              rw (e, u, wait_changed)
                ((λ h. sooner i rounds (rw e u) (f h)), (λ h. g (later i rounds (rw e u) h)))
        ]

  -- A change is confirmed when the batch is known, the call goes out, and the batch gets changed
  -- within 60 questions.
  abbrev pub IsConfirmed : (PostageStampResponse → PostageStampResponse → Bool) → Call → Type 0
  IsConfirmed changed call =
      (batch : PostageStampResponse) × (api.stamp_before ≡ some batch)
      × (api.sends call ≡ true)
      × BecomesChanged (changed batch) 0 60

  change_batch-ok_iff :
      (changed : PostageStampResponse → PostageStampResponse → Bool) (call : Call)
      → ((change_batch api changed call).0 ≡ ok tt) ↔ IsConfirmed changed call
  unfolding change_batch
  change_batch-ok_iff changed call = asked api.stamp_before refl (api.sends call) refl
    where
      asked :
          (r : Option PostageStampResponse)
          → api.stamp_before ≡ r
          → (s : Bool) → api.sends call ≡ s
          → ((change_batch api changed call).0 ≡ ok tt) ↔ IsConfirmed changed call
      asked none e s d = rw (e, change_batch) ((λ h. cc), (λ (b, f, x, y). cc))
      asked (some batch) e false d = rw (e, d, change_batch) ((λ h. cc), (λ (b, f, x, y). cc))
      asked (some batch) e true d =
          let (f, g) = wait_changed_iff (changed batch) 60 0 in
          rw (e, d, change_batch)
            ((λ h. (batch, refl, refl, f h)), (λ (b, x, y, z). g (same b x z)))
        where
          same :
              (b : PostageStampResponse)
              → some batch ≡ some b
              → BecomesChanged (changed b) 0 60
              → BecomesChanged (changed batch) 0 60
          same b x z = let q : b ≡ batch = cc in rw⁻¹ q z

  -- A top-up ends well exactly when the node has the batch, takes the call, and answers with the
  -- batch's old amount or less until, within 60 questions, it answers with a larger one.
  pub top_up_postage_batch-ok_iff :
      (batch_id : String) (amount : ℤ)
      → ((top_up_postage_batch api batch_id amount).0 ≡ ok tt)
        ↔ IsConfirmed (λ batch b. ltb_ℤ batch.amount b.amount) (top_up batch_id amount)
  unfolding top_up_postage_batch
  top_up_postage_batch-ok_iff batch_id amount =
      change_batch-ok_iff (λ batch b. ltb_ℤ batch.amount b.amount) (top_up batch_id amount)
