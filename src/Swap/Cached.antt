-- ===== src/Swap/Cached.antt =====
-- The cache of the block time (pkg/swap/cache.go) under `FetchBlockTime` (pkg/swap/block.go).
use beekeeper.Common.{◌≡◌, refl, ◌≢◌, inl, inr, true, false, not, ◌&&◌, List, [], arith, Bool-cases}
use beekeeper.Common.Int.{ℤ, pos, ltb_ℤ}
use beekeeper.Common.Outcome.{Outcome, ok, err, panic}
use beekeeper.Swap.Block.{
  Request, FetchError, Endpoint, Opt, process_options, store, fetch_block_time,
}

-- A second call without `WithRefresh` after a first one that gave a positive block time makes no
-- request and gives the same block time, which stays in the cache; the endpoint may have changed.
pub fetch_block_time_idem :
    (first second : Endpoint) (overflow v before cached : ℤ) (opts opts' : List Opt)
    (log : List Request)
    → fetch_block_time first overflow opts before ≡ (ok v, cached, log)
    → ltb_ℤ (pos 0) v ≡ true
    → (process_options opts').refresh ≡ false
    → fetch_block_time second overflow opts' cached ≡ (ok v, v, [])
unfolding fetch_block_time store
fetch_block_time_idem first second overflow v before cached opts opts' log h p q =
    rw (held, fetch_block_time, p, q) refl
  where
    held : cached ≡ v
    held = elim (Bool-cases (ltb_ℤ (pos 0) before && not (process_options opts).refresh)) [
      | inl e ↦ ground arith
      | inr e ↦ ground arith
    ]

-- A call that ends in an error or a panic leaves the cache as it was.
pub fetch_block_time-keeps :
    (endpoint : Endpoint) (overflow before cached : ℤ) (opts : List Opt) (log : List Request)
    (r : Outcome FetchError ℤ)
    → fetch_block_time endpoint overflow opts before ≡ (r, cached, log)
    → ((v : ℤ) → r ≢ ok v)
    → cached ≡ before
unfolding fetch_block_time store
fetch_block_time-keeps endpoint overflow before cached opts log (ok v) h n = absurd (n v refl)
fetch_block_time-keeps endpoint overflow before cached opts log (err e) h n = ground arith
fetch_block_time-keeps endpoint overflow before cached opts log panic h n = ground arith
