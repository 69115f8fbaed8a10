-- ===== src/Stamper/Client.antt =====
-- The operations of `Client` in pkg/stamper/stamper.go over all nodes. An error of a node is logged
-- and the next node is served; a panic ends the run. Each node has its own log of calls.
use beekeeper.Common.{ℕ, ◌+◌, Bool, false, ◌||◌, List, [], ◌∷◌, if◌then◌else◌, leb, String}
use beekeeper.Common.Int.{ℤ, pos, eqb_ℤ}
use beekeeper.Common.Outcome.{Outcome, ok, err, panic, ◌>>=◌}
use beekeeper.Stamper.Batch.{Fraction, Options}
use beekeeper.Stamper.Node.{
  Call, Action, PostageApi, Settings, create, dilute_node, topup_node, set_node,
}

pub data Opt : Type 0 where
  with_batch_ids with_postage_labels : List String → Opt

pub data ClientError : Type 0 where
  zero_duration depth_too_small get_nodes fetch_block_time : ClientError

unfoldable pub apply_opt : Options → Opt → Options
apply_opt o (with_batch_ids ids) = record o { batch_ids = ids }
apply_opt o (with_postage_labels labels) = record o { postage_labels = labels }

unfoldable pub process_from : Options → List Opt → Options
unfolding apply_opt
process_from o [] = o
process_from o (opt ∷ opts) = process_from (apply_opt o opt) opts

unfoldable pub process_options : List Opt → Options
unfolding process_from
process_options = process_from (record { batch_ids = []; postage_labels = [] })

-- How many nodes the operation succeeded on with `counts`, and the calls made on each.
pub record Report : Type 0 where
  pub count : ℕ
  pub logs : List (List Call)

module _ {A : Type 0} (operation : PostageApi → Action A) (counts : A → Bool) where
  -- What follows a node: its log, and one more on the count if `counted`.
  abbrev pub note : Bool → List Call → Outcome ClientError Report → Outcome ClientError Report
  note counted log rest = rest >>= λ r.
      ok (record { count = (if counted then r.count + 1 else r.count); logs = log ∷ r.logs })

  unfoldable pub on_nodes : List PostageApi → Outcome ClientError Report
  on_nodes [] = ok (record { count = 0; logs = [] })
  on_nodes (api ∷ apis) =
      let (result, log) = operation api [] in
      let rest = on_nodes apis in
      elim result [ ok a ↦ note (counts a) log rest | err e ↦ note false log rest | panic ↦ panic ]

-- `bucket_depth` is bee's `postage.BucketDepth`; the node list and the block time are outcomes of
-- the node provider and the swap client.
module _ (bucket_depth : ℕ) (nodes : Outcome ClientError (List PostageApi))
    (block_time : Outcome ClientError ℤ) where
  unfoldable pub create_all : ℤ → ℕ → String → Outcome ClientError Report
  unfolding on_nodes create
  create_all duration depth postage_label =
      if eqb_ℤ duration (pos 0)
      then err zero_duration
      else if leb depth bucket_depth
      then err depth_too_small
      else nodes >>= λ apis. block_time >>= λ seconds_per_block.
          on_nodes (λ api. create api duration depth postage_label seconds_per_block) (λ _. false)
            apis

  unfoldable pub dilute_all : Fraction → ℕ → List Opt → Outcome ClientError Report
  unfolding on_nodes dilute_node process_options
  dilute_all usage_threshold dilution_depth opts = nodes >>= λ apis.
      on_nodes (λ api. dilute_node api usage_threshold dilution_depth (process_options opts))
        (λ diluted. diluted) apis

  -- Counts the nodes where a batch was topped up or diluted.
  unfoldable pub set_all : ℤ → ℤ → Fraction → ℕ → List Opt → Outcome ClientError Report
  unfolding on_nodes set_node process_options
  set_all ttl_threshold topup_to usage_threshold dilution_depth opts = nodes >>= λ apis.
      block_time >>= λ seconds_per_block.
      let settings : Settings = record {
        ttl_threshold = ttl_threshold;
        top_up_final_ttl = topup_to;
        utilization_threshold = usage_threshold;
        extra_depth = dilution_depth;
        seconds_per_block = seconds_per_block;
      } in
      on_nodes (λ api. set_node api settings (process_options opts)) (λ done. done.0 || done.1) apis

  unfoldable pub topup_all : ℤ → ℤ → List Opt → Outcome ClientError Report
  unfolding on_nodes topup_node process_options
  topup_all ttl_threshold topup_to opts = nodes >>= λ apis. block_time >>= λ seconds_per_block.
      on_nodes
        (λ api. topup_node api ttl_threshold topup_to seconds_per_block (process_options opts))
        (λ topped. topped) apis
