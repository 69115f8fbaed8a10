-- ===== src/Stamper/First.antt =====
-- `Topup` and `Dilute` of pkg/stamper/node.go serve one batch of a node: the first that qualifies.
use beekeeper.Common.{ℕ, ◌≡◌, true, false, ◌&&◌, List, [], ◌∷◌, ◌++◌, All}
use beekeeper.Common.Int.{ℤ}
use beekeeper.Stamper.Batch.{
  PostageStampResponse, Fraction, Options, is_valid_batch, batch_usage, at_least,
}
use beekeeper.Stamper.Node.{
  PostageApi, handle_topup, handle_dilution, batch_duration, topup_first, dilute_first,
}

module _ (api : PostageApi) (opts : Options) where
  -- Behind batches that are not valid, the first valid one is handled, and whatever follows it in
  -- the node's list is not looked at: the result and the calls are those of that batch alone.
  pub topup_first-append :
      (threshold target b price : ℤ) (before after : List PostageStampResponse)
      (batch : PostageStampResponse)
      → All (λ x. is_valid_batch x opts ≡ false) before
      → is_valid_batch batch opts ≡ true
      → topup_first api (before ++ batch ∷ after) threshold target b price opts
        ≡ handle_topup api batch threshold target (batch_duration batch) b price
  unfolding topup_first
  topup_first-append threshold target b price [] after batch h v = rw (v, topup_first)
  topup_first-append threshold target b price (x ∷ before) after batch h v =
      rw (h.0, topup_first) (topup_first-append threshold target b price before after batch h.1 v)

  pub dilute_first-append :
      (threshold : Fraction) (increment : ℕ) (before after : List PostageStampResponse)
      (batch : PostageStampResponse)
      → All (λ x. (is_valid_batch x opts && at_least (batch_usage x) threshold) ≡ false) before
      → (is_valid_batch batch opts && at_least (batch_usage batch) threshold) ≡ true
      → dilute_first api (before ++ batch ∷ after) threshold increment opts
        ≡ handle_dilution api batch increment
  unfolding dilute_first
  dilute_first-append threshold increment [] after batch h v = rw (v, dilute_first)
  dilute_first-append threshold increment (x ∷ before) after batch h v =
      rw (h.0, dilute_first) (dilute_first-append threshold increment before after batch h.1 v)
