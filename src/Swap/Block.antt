-- ===== src/Swap/Block.antt =====
-- `FetchBlockTime` of pkg/swap/block.go over the cache of pkg/swap/cache.go. The endpoint is a
-- parameter: it fails or answers a request with the bytes of a result, and may take earlier
-- requests into account.
use beekeeper.Common.{
  ℕ, zero, suc, ◌/◌, Bool, true, false, not, ◌&&◌, Option, none, some, List, [], ◌∷◌, if◌then◌else◌,
  ltb, ◌==◌,
}
use beekeeper.Common.Int.{ℤ, pos, pos_part, ◌-ℤ◌, ltb_ℤ, leb_ℤ, eqb_ℤ, wrap64, quot}
use beekeeper.Common.Outcome.{Outcome, ok, err, panic}
use beekeeper.Swap.Float.{nearest, round_ratio}
use beekeeper.Swap.Hex.{parse_hex}

pub data Request : Type 0 where
  eth_block_number : Request
  eth_get_block_by_number : ℤ → Request

-- `out_of_fuel` is not an error of the code: `fetch_block_time-ne-out_of_fuel` excludes it.
pub data FetchError : Type 0 where
  request_json empty_timestamp invalid_timestamp empty_result invalid_result parse_int : FetchError
  out_of_fuel : FetchError

abbrev pub Endpoint : Type 0
Endpoint = List Request → Request → Option (List ℕ)

-- An error of `requestJSON`.
abbrev pub answered : Option (List ℕ) → Outcome FetchError (List ℕ)
answered (some result) = ok result
answered none = err request_json

abbrev pub Fetch : Type 0 → Type 0
Fetch A = List Request → Outcome FetchError A × List Request

module _ {A B : Type 0} where
  abbrev pub and_then : Outcome FetchError A → (A → Fetch B) → Fetch B
  and_then (ok a) f log = f a log
  and_then (err e) f log = (err e, log)
  and_then panic f log = (panic, log)

  infixl 5 ◌>>=◌ ◌>>◌
  abbrev pub ◌>>=◌ : Fetch A → (A → Fetch B) → Fetch B
  ◌>>=◌ m f log = let (r, log') = m log in and_then r f log'

  abbrev pub ◌>>◌ : Fetch A → Fetch B → Fetch B
  m >> k = m >>= λ _. k

abbrev pub lift : {A : Type 0} → Outcome FetchError A → Fetch A
lift r log = (r, log)

pub data Opt : Type 0 where
  with_offset : ℤ → Opt
  with_refresh : Opt

pub record Options : Type 0 where
  pub offset : ℤ
  pub refresh : Bool

unfoldable pub apply_opt : Opt → Options → Options
apply_opt (with_offset offset) o = record o {
  offset = (if ltb_ℤ (pos 0) offset then offset else pos 1);
}
apply_opt with_refresh o = record o { refresh = true }

unfoldable pub process_from : List Opt → Options → Options
unfolding apply_opt
process_from [] o = o
process_from (opt ∷ opts) o = process_from opts (apply_opt opt o)

unfoldable pub process_options : List Opt → Options
unfolding process_from
process_options opts = process_from opts (record { offset = pos 1; refresh = false })

-- What both fetches do with the text of an answer: `s[:2]` panics on a single byte.
unfoldable pub number_of : FetchError → FetchError → List ℕ → Outcome FetchError ℤ
number_of empty invalid [] = err empty
number_of empty invalid (a ∷ []) = panic
number_of empty invalid (a ∷ b ∷ s) =
    if a == b'0' && b == b'x'
    then elim (parse_hex s) [ some n ↦ ok n | none ↦ err parse_int ]
    else err invalid

-- `math.Max(1, float64(o)/2)`, truncated, for o ≥ 1.
unfoldable pub halve : ℤ → ℤ
halve o = if ltb (nearest (pos_part o) / 2) 1 then pos 1 else pos (nearest (pos_part o) / 2)

module _ (endpoint : Endpoint) where
  unfoldable pub request : Request → Fetch (List ℕ)
  request r log = (answered (endpoint log r), r ∷ log)

  unfoldable pub fetch_latest_block_number : Fetch ℤ
  unfolding request number_of
  fetch_latest_block_number =
      request eth_block_number >>= λ result. lift (number_of empty_result invalid_result result)

  unfoldable pub fetch_block_timestamp : ℤ → Fetch ℤ
  unfolding request number_of
  fetch_block_timestamp block_number = request (eth_get_block_by_number block_number) >>= λ result.
      lift (number_of empty_timestamp invalid_timestamp result)

  -- Whether the loop goes on after an error: a missing timestamp, and an offset above 1.
  unfoldable pub retries : FetchError → ℤ → Bool
  retries empty_timestamp o = not (eqb_ℤ o (pos 1))
  retries request_json o = false
  retries invalid_timestamp o = false
  retries empty_result o = false
  retries invalid_result o = false
  retries parse_int o = false
  retries out_of_fuel o = false

  -- The loop of `FetchBlockTime`: the timestamp of the earlier block, 0 if there is no round, and
  -- the offset that it ends with.
  unfoldable pub previous_timestamp : ℕ → ℤ → ℤ → Fetch (ℤ × ℤ)
  unfolding retries halve
  previous_timestamp zero latest o log = (err out_of_fuel, log)
  previous_timestamp (suc fuel) latest o log =
      let rest = previous_timestamp fuel latest (halve o) in
      if leb_ℤ (pos 1) o
      then (let (r, log') = fetch_block_timestamp (wrap64 (latest -ℤ o)) log in
          elim r [
            | ok timestamp ↦ (ok (timestamp, o), log')
            | err e ↦ if retries e o then rest log' else (err e, log')
            | panic ↦ (panic, log')
          ])
      else (ok (pos 0, o), log)

  -- `if retryOffset > latestBlockNumber/2 { retryOffset = latestBlockNumber / 2 }`
  unfoldable pub limit_offset : ℤ → ℤ → ℤ
  limit_offset o latest = if ltb_ℤ (quot latest (pos 2)) o then quot latest (pos 2) else o

  -- The average in seconds. With offset 0 it is the conversion of ±Inf or NaN to int64, which Go
  -- leaves to the implementation, `overflow`; so it does with a value of 2^63.
  unfoldable pub average : ℤ → ℤ → ℤ → ℤ
  average overflow elapsed o =
      let r = round_ratio elapsed o in
      if eqb_ℤ o (pos 0) then overflow else if eqb_ℤ (wrap64 r) r then r else overflow

  unfoldable pub estimate : ℤ → ℤ → Fetch ℤ
  unfolding fetch_latest_block_number fetch_block_timestamp limit_offset previous_timestamp average
  estimate overflow offset = do
    latest ← fetch_latest_block_number
    timestamp_latest ← fetch_block_timestamp latest
    let start : ℤ = limit_offset offset latest
    (timestamp_previous, o) ← previous_timestamp (suc (pos_part start)) latest start
    lift (ok (average overflow (wrap64 (timestamp_latest -ℤ timestamp_previous)) o))

  -- `g.cache.SetBlockTime` on a result; an error returns before it.
  unfoldable pub store : ℤ → Outcome FetchError ℤ → ℤ
  store block_time (ok v) = v
  store block_time (err e) = block_time
  store block_time panic = block_time

  -- The result, the cached block time after it, and the requests made.
  unfoldable pub fetch_block_time : ℤ → List Opt → ℤ → Outcome FetchError ℤ × ℤ × List Request
  unfolding process_options estimate store
  fetch_block_time overflow opts block_time =
      let o = process_options opts in
      let (r, log) = estimate overflow o.offset [] in
      if ltb_ℤ (pos 0) block_time && not o.refresh
      then (ok block_time, block_time, [])
      else (r, store block_time r, log)
