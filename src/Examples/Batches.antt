-- ===== src/Examples/Batches.antt =====
-- Runs of the stamper (pkg/stamper) on one node with two batches.
use beekeeper.Common.{◌+◌, ◌*◌, ◌/◌, ◌≤◌, ◌<◌, ◌&&◌, ◌≡◌, refl, arith, true, false, [], ◌∷◌, All}
use beekeeper.Common.Int.{pos, ◌*ℤ◌, quot, wrap64, ◌-ℤ◌}
use beekeeper.Common.Outcome.{ok}
use beekeeper.Stamper.Seconds.{second, whole_seconds, seconds}
use beekeeper.Stamper.Batch.{
  PostageStampResponse, Fraction, Options, batch_usage, at_least, is_valid_batch,
}
use beekeeper.Stamper.Node.{PostageApi, top_up, dilute, Settings, handle_topup, set_node}
use beekeeper.Stamper.Amount.{handle_topup-fills}
use beekeeper.Stamper.Calls.{IsJustified, set_node-IsJustified}

-- 12 of 16 places of a bucket are used, and an hour is left.
abbrev full_batch : PostageStampResponse
full_batch = record {
  batch_id = "f00d";
  utilization = 12;
  usable = true;
  label = "test";
  depth = 20;
  amount = pos 1000;
  bucket_depth = 16;
  block_number = 1;
  immutable_flag = false;
  exists = true;
  batch_ttl = pos 3600;
}

abbrev unusable_batch : PostageStampResponse
unusable_batch = record full_batch { batch_id = "bad"; usable = false }

abbrev api : PostageApi
api = record {
  current_price = ok (pos 2);
  batches = ok (unusable_batch ∷ full_batch ∷ []);
  succeeds = λ log c. true;
}

abbrev any : Options
any = record { batch_ids = []; postage_labels = [] }

abbrev half : Fraction
half = record { num = pos 50; den = 1 }

-- Dilute from a usage of 50% by 2, top up from 2 hours left to 3 hours, with 5 seconds per block.
abbrev settings : Settings
settings = record {
  ttl_threshold = pos (7200 * second);
  top_up_final_ttl = pos (10800 * second);
  utilization_threshold = half;
  extra_depth = 2;
  seconds_per_block = pos 5;
}

-- Diluted by 2, 900 of the 3600 seconds are left: 9900 seconds, 1980 blocks, are bought.
set_run :
    set_node api settings any []
    ≡ (ok (true, true), dilute "f00d" 22 ∷ top_up "f00d" (pos 3960) ∷ [])
unfolding set_node ◌*ℤ◌ quot wrap64 ◌-ℤ◌ seconds
set_run = refl

set_node-IsJustified_example :
    All
      (IsJustified api settings (pos 2) any (unusable_batch ∷ full_batch ∷ []))
      (set_node api settings any []).1
set_node-IsJustified_example =
    set_node-IsJustified api settings any (pos 2) (unusable_batch ∷ full_batch ∷ []) refl refl

seconds_run : whole_seconds (1800 * second) ≡ 1800
unfolding whole_seconds
seconds_run = refl

handle_topup-fills_example :
    let blocks = whole_seconds (1800 * second) / 5 in
    (handle_topup api full_batch
        (pos (7200 * second))
        (pos (3600 * second + 1800 * second))
        (pos (3600 * second))
        (pos 5)
        (pos 2)
        []
      ≡ (ok true, top_up "f00d" (pos (blocks * 2)) ∷ []))
    × (blocks * 5 ≤ whole_seconds (1800 * second))
    × (whole_seconds (1800 * second) < (blocks + 1) * 5)
handle_topup-fills_example =
    handle_topup-fills api full_batch (7200 * second) (3600 * second) (1800 * second) 4 2 []
      (omega arith) (omega arith) (omega arith) (rw seconds_run (omega arith)) refl

unusable_run : is_valid_batch unusable_batch any ≡ false
unfolding is_valid_batch
unusable_run = refl

full_run : is_valid_batch full_batch any ≡ true
unfolding is_valid_batch
full_run = refl

skipped : (is_valid_batch unusable_batch any && at_least (batch_usage unusable_batch) half) ≡ false
skipped = rw unusable_run refl

taken : (is_valid_batch full_batch any && at_least (batch_usage full_batch) half) ≡ true
unfolding is_valid_batch at_least batch_usage ◌*ℤ◌
taken = refl
