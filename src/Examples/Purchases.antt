-- ===== src/Examples/Purchases.antt =====
-- Runs of the purchase of batches (pkg/bee/client.go).
use beekeeper.Common.{
  inr, ℕ, zero, suc, ◌*◌, ◌≡◌, refl, ◌↔◌, ◌⊎◌, true, false, Option, none, some, List, [], ◌∷◌, ◌++◌,
  if◌then◌else◌, ltb, All,
}
use beekeeper.Common.Int.{quot, pos, wrap64, ◌*ℤ◌}
use beekeeper.Common.Outcome.{ok, err}
use beekeeper.Stamper.Batch.{PostageStampResponse}
use beekeeper.Stamper.Seconds.{second, seconds}
use beekeeper.Stamper.Node.{create_batch, top_up, dilute}
use beekeeper.Purchase.Buy.{
  BatchApi, timed_out, create_postage_batch, get_or_create_mutable_batch, top_up_postage_batch,
  dilute_postage_batch,
}
use beekeeper.Purchase.Reuse.{IsReusable, IsAmount, get_or_create_mutable_batch-first}
use beekeeper.Purchase.Confirm.{BecomesUsable, create_postage_batch-ok_iff}

abbrev fresh_batch : PostageStampResponse
fresh_batch = record {
  batch_id = "new";
  utilization = 0;
  usable = true;
  label = "test";
  depth = 20;
  amount = pos 1000;
  bucket_depth = 16;
  block_number = 1;
  immutable_flag = false;
  exists = true;
  batch_ttl = pos 3600;
}

abbrev other_batch : PostageStampResponse
other_batch = record fresh_batch { batch_id = "old"; label = "other" }

-- The batch is usable at the third question.
abbrev stamps : ℕ → Option PostageStampResponse
stamps zero = none
stamps (suc zero) = some (record fresh_batch { usable = false })
stamps (suc (suc i)) = some fresh_batch

abbrev api : BatchApi
api = record {
  reserve_before = true;
  reserve_after = true;
  current_price = some (pos 2);
  block_time = some (pos 5);
  batches = some (other_batch ∷ fresh_batch ∷ []);
  buy = λ call. some "new";
  stamp_before = some fresh_batch;
  sends = λ call. true;
  stamp = stamps;
}

buy_run :
    create_postage_batch api (pos 10) 1 "test" false
    ≡ (ok "new", create_batch (pos 10) 2 "test" ∷ [])
unfolding create_postage_batch
buy_run = refl

create_postage_batch-ok_iff_example :
    ((create_postage_batch api (pos 10) 1 "test" false).0 ≡ ok "new") ↔ (
      (api.buy (create_batch (pos 10) (if ltb 1 2 then 2 else 1) "test") ≡ some "new")
      × BecomesUsable api 0 900)
create_postage_batch-ok_iff_example = create_postage_batch-ok_iff api (pos 10) 1 "test" "new"

hour-IsAmount : IsAmount (pos (3600 * second)) (pos 5) (pos 2) (pos 1440)
unfolding wrap64 ◌*ℤ◌ seconds quot
hour-IsAmount = inr (refl, (λ e. cc), refl)

reuse_run : get_or_create_mutable_batch api (pos (3600 * second)) 17 "test" ≡ (ok "new", [])
unfolding get_or_create_mutable_batch
reuse_run = refl

get_or_create_mutable_batch-first_example :
    ((before after : List PostageStampResponse) × (b : PostageStampResponse) × (other_batch
          ∷ fresh_batch ∷ []
        ≡ before ++ b ∷ after)
      × All (λ x. ¬ IsReusable "test" x) before
      × IsReusable "test" b
      × (get_or_create_mutable_batch api (pos (3600 * second)) 17 "test" ≡ (ok b.batch_id, [])))
    ⊎ (All (λ x. ¬ IsReusable "test" x) (other_batch ∷ fresh_batch ∷ [])
        × (get_or_create_mutable_batch api (pos (3600 * second)) 17 "test"
            ≡ create_postage_batch api (pos 1440) 17 "test" false))
get_or_create_mutable_batch-first_example =
    get_or_create_mutable_batch-first api "test" (pos (3600 * second)) (pos 2) (pos 5) (pos 1440) 17
      (other_batch ∷ fresh_batch ∷ []) refl refl refl hour-IsAmount

-- The amount and the depth of the batch have grown at the second question.
abbrev growing_api : BatchApi
growing_api = record api {
  stamp = λ i. elim i [
    | zero ↦ some fresh_batch
    | suc j ↦ some (record fresh_batch { amount = pos 1500; depth = 21 })
  ];
}

top_up_run : top_up_postage_batch growing_api "new" (pos 500) ≡ (ok tt, top_up "new" (pos 500) ∷ [])
unfolding top_up_postage_batch
top_up_run = refl

dilute_run : dilute_postage_batch growing_api "new" 21 ≡ (ok tt, dilute "new" 21 ∷ [])
unfolding dilute_postage_batch
dilute_run = refl

-- A top-up of nothing is not confirmed.
top_up_nothing_run :
    top_up_postage_batch (record api { stamp = λ i. some fresh_batch }) "new" (pos 0)
    ≡ (err timed_out, top_up "new" (pos 0) ∷ [])
unfolding top_up_postage_batch
top_up_nothing_run = refl
