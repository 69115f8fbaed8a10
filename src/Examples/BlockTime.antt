-- ===== src/Examples/BlockTime.antt =====
-- Runs of `FetchBlockTime` (pkg/swap/block.go) against an endpoint at block 100 that has no block
-- below 99.
use beekeeper.Common.{◌≡◌, refl, ◌≢◌, false, none, some, List, [], ◌∷◌, if◌then◌else◌}
use beekeeper.Common.Int.{pos, ltb_ℤ, ◌-ℤ◌, wrap64, quot}
use beekeeper.Common.Outcome.{ok, err}
use beekeeper.Swap.Block.{
  Request, eth_block_number, eth_get_block_by_number, request_json, out_of_fuel, Endpoint,
  with_offset, with_refresh, process_options, fetch_block_time,
}
use beekeeper.Swap.Retry.{fetch_block_time-ne-out_of_fuel}
use beekeeper.Swap.Hex.{parse_hex}
use beekeeper.Swap.Float.{nearest, round_ratio}

-- Block 99 is of second 16, block 100 of second 26.
abbrev endpoint : Endpoint
endpoint log eth_block_number = some (b'0' ∷ b'x' ∷ b'6' ∷ b'4' ∷ [])
endpoint log (eth_get_block_by_number n) =
    if ltb_ℤ n (pos 99)
    then some []
    else if ltb_ℤ n (pos 100)
    then some (b'0' ∷ b'x' ∷ b'1' ∷ b'0' ∷ [])
    else some (b'0' ∷ b'x' ∷ b'1' ∷ b'a' ∷ [])

abbrev silent : Endpoint
silent log r = none

abbrev requests : List Request
requests =
    eth_get_block_by_number (pos 99)
    ∷ eth_get_block_by_number (pos 98)
    ∷ eth_get_block_by_number (pos 96)
    ∷ eth_get_block_by_number (pos 92)
    ∷ eth_get_block_by_number (pos 100)
    ∷ eth_block_number
    ∷ []

-- Blocks 92, 96 and 98 have no timestamp.
fetch_run :
    fetch_block_time endpoint (pos 0) (with_offset (pos 8) ∷ []) (pos 0)
    ≡ (ok (pos 10), pos 10, requests)
unfolding fetch_block_time parse_hex quot wrap64 ◌-ℤ◌ nearest round_ratio
fetch_run = refl

not_refreshed : (process_options []).refresh ≡ false
unfolding process_options
not_refreshed = refl

silent_run :
    fetch_block_time silent (pos 0) (with_refresh ∷ []) (pos 7)
    ≡ (err request_json, pos 7, eth_block_number ∷ [])
unfolding fetch_block_time
silent_run = refl

fetch_block_time-ne-out_of_fuel_example :
    (fetch_block_time endpoint (pos 0) (with_offset (pos 8) ∷ []) (pos 0)).0 ≢ err out_of_fuel
fetch_block_time-ne-out_of_fuel_example =
    fetch_block_time-ne-out_of_fuel endpoint (pos 0) (with_offset (pos 8) ∷ []) (pos 0)
