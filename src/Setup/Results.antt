-- ===== src/Setup/Results.antt =====
-- The results of the goroutines that `setupBootnodes` and `setupNodes` of
-- cmd/beekeeper/cmd/cluster.go launch, which come over a channel without a buffer. Goroutines send in
-- any order. A receiver that returns closes the channel, and a send on a closed channel panics.
use beekeeper.Common.{
  ℕ, suc, ◌≡◌, Option, none, some, List, [], ◌∷◌, ◌++◌, if◌then◌else◌, String, str_eq,
}
use beekeeper.Common.Outcome.{Outcome, ok, err}
use beekeeper.Setup.Launch.{SetupError, node_failed}

-- The name of the node, and its Ethereum address, or none for an error.
abbrev pub NodeResult : Type 0
NodeResult = String × Option String

-- An address that is not empty is funded.
unfoldable pub add_address : List String → String → List String
add_address found eth_address = if str_eq eth_address "" then found else found ++ eth_address ∷ []

-- The loop over the results in the order of their arrival.
unfoldable pub receive : List String → List NodeResult → Outcome SetupError (List String)
unfolding add_address
receive found [] = ok found
receive found ((name, none) ∷ results) = err (node_failed name)
receive found ((name, some eth_address) ∷ results) = receive (add_address found eth_address) results

-- The receiver waits for a number of results, or has returned.
pub data Receiver : Type 0 where
  waits : (results : ℕ) (found : List String) → Receiver
  returned : Outcome SetupError (List String) → Receiver

-- `sending` are the goroutines that have not sent their result yet.
pub record Channel : Type 0 where
  pub sending : List NodeResult
  pub receiver : Receiver

unfoldable pub take_result : ℕ → List String → NodeResult → Receiver
unfolding add_address
take_result n found (name, none) = returned (err (node_failed name))
take_result n found (name, some eth_address) = waits n (add_address found eth_address)

-- One step: a goroutine hands over its result, or the receiver has them all and returns.
pub data Step : Channel → Channel → Type 0 where
  send :
      (before after : List NodeResult) (r : NodeResult) (n : ℕ) (found : List String)
      → Step
          (record { sending = before ++ r ∷ after; receiver = waits (suc n) found })
          (record { sending = before ++ after; receiver = take_result n found r })
  finish :
      (sending : List NodeResult) (found : List String)
      → Step
          (record { sending = sending; receiver = waits 0 found })
          (record { sending = sending; receiver = returned (ok found) })

pub data Reach (s : Channel) : Channel → Type 0 where
  here : Reach s s
  next : {t u : Channel} → Reach s t → Step t u → Reach s u

-- The channel after the goroutines have been launched.
unfoldable pub launched_channel : ℕ → List NodeResult → Channel
launched_channel n results = record { sending = results; receiver = waits n [] }

-- The receiver has returned, so the channel is closed, and a goroutine has yet to send.
abbrev pub Crashes : Channel → Type 0
Crashes c =
    (r : Outcome SetupError (List String)) × (c.receiver ≡ returned r)
    × ((s : NodeResult) × (rest : List NodeResult) × (c.sending ≡ s ∷ rest))
