-- ===== src/Swap/Retry.antt =====
-- The retries of `FetchBlockTime` (pkg/swap/block.go): they end, they find a timestamp that is
-- there, and only a result changes the cache.
use beekeeper.Common.{
  ℕ, zero, suc, ◌≤◌, ◌<◌, ◌≡◌, ◌≢◌, ◌⊎◌, Option, some, none, List, [], ◌∷◌, arith, if◌then◌else◌,
}
use beekeeper.Common.Int.{ℤ, pos, negsuc, pos_part, ◌-ℤ◌, wrap64}
use beekeeper.Common.Outcome.{Outcome, ok, err, panic}
use beekeeper.Swap.Float.{nearest-lt}
use beekeeper.Swap.Block.{
  Request, eth_block_number, eth_get_block_by_number, FetchError, empty_timestamp,
  invalid_timestamp, empty_result, invalid_result, out_of_fuel, Endpoint, Fetch, and_then, lift,
  ◌>>=◌, answered, Opt, process_options, number_of, halve, request, fetch_latest_block_number,
  fetch_block_timestamp, retries, previous_timestamp, limit_offset, estimate, fetch_block_time,
}

-- The next offset is positive, and smaller than one above 1.
halve-lt :
    (n : ℕ)
    → 2 ≤ n
    → (1 ≤ pos_part (halve (pos n)))
      × (pos_part (halve (pos n)) < n)
      × (halve (pos n) ≡ pos (pos_part (halve (pos n))))
unfolding halve
halve-lt n h = ground (arith, nearest-lt n (omega arith))

module _ (endpoint : Endpoint) where
  -- A result that is not the model's own error.
  abbrev Real : {A : Type 0} → Outcome FetchError A → Type 0
  Real r = r ≢ err out_of_fuel

  number_of-Real :
      (empty invalid : FetchError) (s : List ℕ)
      → empty ≢ out_of_fuel
      → invalid ≢ out_of_fuel
      → Real (number_of empty invalid s)
  unfolding number_of
  number_of-Real empty invalid [] a b = λ e. a (ground arith)
  number_of-Real empty invalid (x ∷ []) a b = λ e. cc
  number_of-Real empty invalid (x ∷ y ∷ s) a b = ground arith

  answer-Real :
      (answer : Option (List ℕ)) (empty invalid : FetchError) (log : List Request)
      → empty ≢ out_of_fuel
      → invalid ≢ out_of_fuel
      → Real (and_then (answered answer) (λ result. lift (number_of empty invalid result)) log).0
  answer-Real none empty invalid log a b = λ e. cc
  answer-Real (some s) empty invalid log a b = number_of-Real empty invalid s a b

  fetch_block_timestamp-Real :
      (n : ℤ) (log : List Request) → Real (fetch_block_timestamp endpoint n log).0
  unfolding fetch_block_timestamp request
  fetch_block_timestamp-Real n log =
      answer-Real (endpoint log (eth_get_block_by_number n)) empty_timestamp invalid_timestamp _
        (λ e. cc) (λ e. cc)

  fetch_latest_block_number-Real :
      (log : List Request) → Real (fetch_latest_block_number endpoint log).0
  unfolding fetch_latest_block_number request
  fetch_latest_block_number-Real log =
      answer-Real (endpoint log eth_block_number) empty_result invalid_result _ (λ e. cc) (λ e. cc)

  -- One round of the loop, by what the request for the block gives.
  round_of :
      Outcome FetchError ℤ × List Request
      → ℤ
      → Fetch (ℤ × ℤ)
      → Outcome FetchError (ℤ × ℤ) × List Request
  round_of (ok timestamp, log) o rest = (ok (timestamp, o), log)
  round_of (err e, log) o rest = if retries endpoint e o then rest log else (err e, log)
  round_of (panic, log) o rest = (panic, log)

  previous_timestamp-suc :
      (fuel : ℕ) (latest : ℤ) (k : ℕ) (log : List Request)
      → previous_timestamp endpoint (suc fuel) latest (pos (suc k)) log
        ≡ round_of
            (fetch_block_timestamp endpoint (wrap64 (latest -ℤ pos (suc k))) log)
            (pos (suc k))
            (previous_timestamp endpoint fuel latest (halve (pos (suc k))))
  unfolding previous_timestamp round_of
  previous_timestamp-suc fuel latest k log = ground arith

  round_of-Real :
      (r : Outcome FetchError ℤ × List Request) (k : ℕ) (rest : Fetch (ℤ × ℤ))
      → Real r.0
      → (1 ≤ k → (log : List Request) → Real (rest log).0)
      → Real (round_of r (pos (suc k)) rest).0
  unfolding round_of retries
  round_of-Real (ok t, log) k rest h j = λ e. cc
  round_of-Real (panic, log) k rest h j = λ e. cc
  round_of-Real (err e, log) zero rest h j = ground arith
  round_of-Real (err e, log) (suc k) rest h j = ground (arith, j (omega arith) log)

  -- An offset below the fuel never runs out of it, since every retry reduces it.
  previous_timestamp-Real :
      (fuel : ℕ) (latest o : ℤ) (log : List Request)
      → pos_part o < fuel
      → Real (previous_timestamp endpoint fuel latest o log).0
  unfolding previous_timestamp
  previous_timestamp-Real zero latest o log h = absurd (omega arith)
  previous_timestamp-Real (suc fuel) latest (pos zero) log h = ground arith
  previous_timestamp-Real (suc fuel) latest (negsuc n) log h = ground arith
  previous_timestamp-Real (suc fuel) latest (pos (suc k)) log h =
      rw (previous_timestamp-suc fuel latest k log) (
        round_of-Real _ k _ (fetch_block_timestamp-Real _ log) (λ l log'.
          previous_timestamp-Real fuel latest _ log'
            (omega (arith, halve-lt (suc k) (omega arith)))))

  and_then-Real :
      {A B : Type 0} (r : Outcome FetchError A) (f : A → Fetch B) (log : List Request)
      → Real r
      → ((a : A) (log' : List Request) → Real (f a log').0)
      → Real (and_then r f log).0
  and_then-Real (ok a) f log h j = j a log
  and_then-Real (err e) f log h j = λ q. h (ground arith)
  and_then-Real panic f log h j = λ q. cc

  bind-Real :
      {A B : Type 0} (m : Fetch A) (f : A → Fetch B)
      → ((log : List Request) → Real (m log).0)
      → ((a : A) (log : List Request) → Real (f a log).0)
      → (log : List Request) → Real ((m >>= f) log).0
  bind-Real m f h j log = and_then-Real (m log).0 f (m log).1 (h log) j

  estimate-Real :
      (overflow offset : ℤ) (log : List Request) → Real (estimate endpoint overflow offset log).0
  unfolding estimate
  estimate-Real overflow offset =
      bind-Real (fetch_latest_block_number endpoint) _ fetch_latest_block_number-Real (λ latest.
        bind-Real (fetch_block_timestamp endpoint latest) _ (fetch_block_timestamp-Real latest)
          (λ newest.
            let start : ℤ = limit_offset endpoint offset latest in
            bind-Real (previous_timestamp endpoint (suc (pos_part start)) latest start) _
              (λ log. previous_timestamp-Real (suc (pos_part start)) latest start log (omega arith))
              (λ found log e. cc)))

  -- `FetchBlockTime` ends: the loop of retries needs no more rounds than the offset counts, so the
  -- model's fuel never runs out, whatever the endpoint answers.
  pub fetch_block_time-ne-out_of_fuel :
      (overflow : ℤ) (opts : List Opt) (block_time : ℤ)
      → (fetch_block_time endpoint overflow opts block_time).0 ≢ err out_of_fuel
  unfolding fetch_block_time
  fetch_block_time-ne-out_of_fuel overflow opts block_time =
      ground (arith, estimate-Real overflow (process_options opts).offset [])

  -- The endpoint answers for a block, whatever was asked before, with a timestamp or without one.
  abbrev pub Serves : ℤ → Type 0
  Serves n =
      (log : List Request)
      → ((t : ℤ) × ((fetch_block_timestamp endpoint n log).0 ≡ ok t))
        ⊎ ((fetch_block_timestamp endpoint n log).0 ≡ err empty_timestamp)

  abbrev Found : ℕ → Outcome FetchError (ℤ × ℤ) → Type 0
  Found k r = (t : ℤ) × (o : ℕ) × (1 ≤ o) × (o ≤ k) × (r ≡ ok (t, pos o))
