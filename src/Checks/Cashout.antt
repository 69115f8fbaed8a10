-- ===== src/Checks/Cashout.antt =====
-- The cashout check of pkg/check/cashout/cashout.go. What the nodes answer is a parameter: before the
-- cashouts are confirmed it may depend on those so far, and then on the number of the round. Amounts
-- are big integers.
use beekeeper.Common.{
  ℕ, zero, suc, Bool, true, false, Option, none, some, List, [], ◌∷◌, ◌++◌, if◌then◌else◌, String,
}
use beekeeper.Common.Int.{ℤ, pos, ltb_ℤ, eqb_ℤ}
use beekeeper.Common.Outcome.{Outcome, ok, err, ◌>>=◌}

pub data CashoutError : Type 0 where
  node_group_failed not_confirmed : CashoutError
  client_failed settlements_failed balance_failed : (node : String) → CashoutError
  bad_address : (peer : String) → CashoutError
  status_failed cashout_failed bouncing : (node : String) → CashoutError
  balance_not_changed : (node : String) → CashoutError

-- A settlement with a peer.
pub record Settlement : Type 0 where
  pub peer : String
  pub received : ℤ

module _ (Addr : Type 0) where
  pub record CashoutAction : Type 0 where
    pub node : String
    pub peer : Addr
    pub uncashed_amount : ℤ
    pub transaction_hash : String
    pub old_balance : ℤ

  -- The answers. A result tells whether the cheque bounced; `parse` is `swarm.ParseHexAddress`.
  pub record Cashouts : Type 0 where
    pub parse : String → Option Addr
    pub has_client : String → Bool
    pub settlements : List CashoutAction → String → Option (List Settlement)
    pub uncashed : List CashoutAction → String → Addr → Option ℤ
    pub balance : List CashoutAction → String → Option ℤ
    pub cashout : List CashoutAction → String → Addr → Option String
    pub result : ℕ → String → Addr → Option (Option Bool)
    pub balance_at : ℕ → String → Option ℤ

-- An answer, or the error that stands for its lack.
abbrev pub or_fail : {A : Type 0} → Option A → CashoutError → Outcome CashoutError A
or_fail none e = err e
or_fail (some a) e = ok a

module _ {Addr : Type 0} (cluster : Cashouts Addr) where
  -- The cashout of one peer.
  unfoldable pub cash_out :
      String
      → Addr
      → ℤ
      → List (CashoutAction Addr)
      → Outcome CashoutError (List (CashoutAction Addr))
  cash_out node peer uncashed_amount actions =
      or_fail (cluster.balance actions node) (balance_failed node) >>= λ old_balance.
      or_fail (cluster.cashout actions node peer) (cashout_failed node) >>= λ transaction_hash. ok (
        actions
        ++ record {
          node = node;
          peer = peer;
          uncashed_amount = uncashed_amount;
          transaction_hash = transaction_hash;
          old_balance = old_balance;
        }
          ∷ [])

  -- A peer from which something was received and is not cashed out yet is cashed out.
  unfoldable pub cash_peer :
      String
      → Settlement
      → List (CashoutAction Addr)
      → Outcome CashoutError (List (CashoutAction Addr))
  unfolding cash_out
  cash_peer node s actions =
      if ltb_ℤ (pos 0) s.received
      then (or_fail (cluster.parse s.peer) (bad_address s.peer) >>= λ peer.
          or_fail (cluster.uncashed actions node peer) (status_failed node) >>= λ uncashed_amount.
          if ltb_ℤ (pos 0) uncashed_amount
          then cash_out node peer uncashed_amount actions
          else ok actions)
      else ok actions

  unfoldable pub cash_peers :
      String
      → List Settlement
      → List (CashoutAction Addr)
      → Outcome CashoutError (List (CashoutAction Addr))
  unfolding cash_peer
  cash_peers node [] actions = ok actions
  cash_peers node (s ∷ settlements) actions =
      cash_peer node s actions >>= λ done. cash_peers node settlements done

  -- The settlements of a node.
  unfoldable pub settlements_of :
      String → List (CashoutAction Addr) → Outcome CashoutError (List Settlement)
  settlements_of node actions =
      if cluster.has_client node
      then or_fail (cluster.settlements actions node) (settlements_failed node)
      else err (client_failed node)

  unfoldable pub cash_nodes :
      List String → List (CashoutAction Addr) → Outcome CashoutError (List (CashoutAction Addr))
  unfolding cash_peers settlements_of
  cash_nodes [] actions = ok actions
  cash_nodes (node ∷ nodes) actions = settlements_of node actions >>= λ settlements.
      cash_peers node settlements actions >>= λ done. cash_nodes nodes done

  -- Whether a cashout is confirmed in a round.
  unfoldable pub is_confirmed : ℕ → CashoutAction Addr → Outcome CashoutError Bool
  is_confirmed r action =
      if cluster.has_client action.node
      then (or_fail (cluster.result r action.node action.peer) (status_failed action.node)
          >>= λ result. elim result [
            | none ↦ ok false
            | some bounced ↦
                if bounced
                then err (bouncing action.node)
                else (or_fail (cluster.balance_at r action.node) (balance_failed action.node)
                    >>= λ balance.
                        if eqb_ℤ action.old_balance balance
                        then err (balance_not_changed action.node)
                        else ok true)
          ])
      else err (client_failed action.node)

  -- Whether all are, up to the first that is not.
  unfoldable pub are_confirmed : ℕ → List (CashoutAction Addr) → Outcome CashoutError Bool
  unfolding is_confirmed
  are_confirmed r [] = ok true
  are_confirmed r (action ∷ actions) =
      is_confirmed r action >>= λ confirmed. if confirmed then are_confirmed r actions else ok false

  -- The rounds from number `r` on.
  unfoldable pub confirm_rounds :
      ℕ → ℕ → List (CashoutAction Addr) → Outcome CashoutError (Unit {0})
  unfolding are_confirmed
  confirm_rounds zero r actions = err not_confirmed
  confirm_rounds (suc rounds) r actions = are_confirmed r actions >>= λ confirmed.
      if confirmed then ok tt else confirm_rounds rounds (suc r) actions

  -- `nodes` are the names of the node group's nodes in order.
  unfoldable pub run_cashout : Option (List String) → Outcome CashoutError (Unit {0})
  unfolding cash_nodes confirm_rounds
  run_cashout none = err node_group_failed
  run_cashout (some nodes) = cash_nodes nodes [] >>= λ actions. confirm_rounds 10 0 actions
