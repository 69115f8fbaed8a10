-- ===== src/Checks/Confirmed.antt =====
-- The confirmation of the cashouts by the check of pkg/check/cashout/cashout.go.
use beekeeper.Common.{
  ℕ, zero, suc, ◌+◌, ◌<◌, ◌≡◌, refl, ◌⊎◌, inl, inr, Bool, true, false, Option, none, some, List, [],
  ◌∷◌, In, arith, if◌then◌else◌, String, Bool-cases, sym, ◌∙◌, ◌≢◌,
}
use mathlib.Core.Path.{subst}
use beekeeper.Common.Int.{ℤ, eqb_ℤ, eqb_ℤ_iff}
use beekeeper.Common.Outcome.{Outcome, ok, err, ◌>>=◌, >>=-eq-ok}
use beekeeper.Checks.Cashout.{
  CashoutError, status_failed, balance_failed, bouncing, balance_not_changed, CashoutAction,
  Cashouts, or_fail, cash_nodes, is_confirmed, are_confirmed, confirm_rounds, run_cashout,
}
use beekeeper.Checks.Cashed.{answered, true-ne-false, IsNodeCashed, cash_nodes-IsNodeCashed}

module _ {Addr : Type 0} (cluster : Cashouts Addr) where
  -- The cheque of a cashout is confirmed in a round: it did not bounce, and the balance has changed.
  abbrev pub IsConfirmed : ℕ → CashoutAction Addr → Type 0
  IsConfirmed r a =
      (cluster.result r a.node a.peer ≡ some (some false))
      × ((balance : ℤ) × (cluster.balance_at r a.node ≡ some balance) × (a.old_balance ≢ balance))

  is_confirmed-IsConfirmed :
      (r : ℕ) (a : CashoutAction Addr) → is_confirmed cluster r a ≡ ok true → IsConfirmed r a
  unfolding is_confirmed
  is_confirmed-IsConfirmed r a h = elim (Bool-cases (cluster.has_client a.node)) [
    | inr c ↦ let h' = rw (is_confirmed, c) at h in cc
    | inl c ↦
        let (result, e, h1) =
          answered (cluster.result r a.node a.peer) (status_failed a.node) judged
            (rw (is_confirmed, c) at h) in
        by_result result e h1
  ]
    where
      compared : ℤ → Outcome CashoutError Bool
      compared balance =
          if eqb_ℤ a.old_balance balance then err (balance_not_changed a.node) else ok true

      judged : Option Bool → Outcome CashoutError Bool
      judged result = elim result [
        | none ↦ ok false
        | some bounced ↦
            if bounced
            then err (bouncing a.node)
            else (or_fail (cluster.balance_at r a.node) (balance_failed a.node) >>= λ b. compared b)
      ]

      by_result :
          (result : Option Bool)
          → cluster.result r a.node a.peer ≡ some result
          → judged result ≡ ok true
          → IsConfirmed r a
      by_result none e q = cc
      by_result (some true) e q = cc
      by_result (some false) e q =
          let (balance, b, q1) =
            answered (cluster.balance_at r a.node) (balance_failed a.node) compared q in
          (e, (balance, b, λ same. by_test balance same q1 (eqb_ℤ a.old_balance balance) refl))
        where
          by_test :
              (balance : ℤ)
              → a.old_balance ≡ balance
              → compared balance ≡ ok true
              → (b : Bool) → eqb_ℤ a.old_balance balance ≡ b
              → ⊥
          by_test balance same q1 true t = let q2 = rw t at q1 in cc
          by_test balance same q1 false t =
              true-ne-false (sym ((eqb_ℤ_iff a.old_balance balance).1 same) ∙ t)

  -- The first action is confirmed, and then the others are asked for.
  are_confirmed-cons :
      (r : ℕ) (b : CashoutAction Addr) (actions : List (CashoutAction Addr))
      → are_confirmed cluster r (b ∷ actions) ≡ ok true
      → (is_confirmed cluster r b ≡ ok true) × (are_confirmed cluster r actions ≡ ok true)
  unfolding are_confirmed
  are_confirmed-cons r b actions h =
      let (c, e, h1) =
        >>=-eq-ok (is_confirmed cluster r b)
          (λ confirmed. if confirmed then are_confirmed cluster r actions else ok false) h in
      by_first c e h1
    where
      by_first :
          (c : Bool)
          → is_confirmed cluster r b ≡ ok c
          → (if c then are_confirmed cluster r actions else ok false) ≡ ok true
          → (is_confirmed cluster r b ≡ ok true) × (are_confirmed cluster r actions ≡ ok true)
      by_first true e q = (e, q)
      by_first false e q = cc

  are_confirmed-IsConfirmed :
      (r : ℕ) (actions : List (CashoutAction Addr))
      → are_confirmed cluster r actions ≡ ok true
      → (a : CashoutAction Addr) → In a actions
      → IsConfirmed r a
  unfolding are_confirmed
  are_confirmed-IsConfirmed r [] h a i = absurd i
  are_confirmed-IsConfirmed r (b ∷ actions) h a (inl e) =
      subst (λ x. IsConfirmed r x) (sym e)
        (is_confirmed-IsConfirmed r b (are_confirmed-cons r b actions h).0)
  are_confirmed-IsConfirmed r (b ∷ actions) h a (inr j) =
      are_confirmed-IsConfirmed r actions (are_confirmed-cons r b actions h).1 a j

  -- A round in which all are confirmed ends the rounds, and another one goes on.
  confirm_rounds-suc :
      (rounds r : ℕ) (actions : List (CashoutAction Addr))
      → confirm_rounds cluster (suc rounds) r actions ≡ ok tt
      → (are_confirmed cluster r actions ≡ ok true)
        ⊎ (confirm_rounds cluster rounds (suc r) actions ≡ ok tt)
  unfolding confirm_rounds
  confirm_rounds-suc rounds r actions h =
      let (c, e, h1) =
        >>=-eq-ok (are_confirmed cluster r actions)
          (λ confirmed. if confirmed then ok tt else confirm_rounds cluster rounds (suc r) actions)
          h in
      by_round c e h1
    where
      by_round :
          (c : Bool)
          → are_confirmed cluster r actions ≡ ok c
          → (if c then ok tt else confirm_rounds cluster rounds (suc r) actions) ≡ ok tt
          → (are_confirmed cluster r actions ≡ ok true)
            ⊎ (confirm_rounds cluster rounds (suc r) actions ≡ ok tt)
      by_round true e q = inl e
      by_round false e q = inr q

  confirm_rounds-IsConfirmed :
      (rounds r : ℕ) (actions : List (CashoutAction Addr))
      → confirm_rounds cluster rounds r actions ≡ ok tt
      → (k : ℕ) × (k < r + rounds) × ((a : CashoutAction Addr) → In a actions → IsConfirmed k a)
  unfolding confirm_rounds
  confirm_rounds-IsConfirmed zero r actions h = cc
  confirm_rounds-IsConfirmed (suc rounds) r actions h =
      elim (confirm_rounds-suc rounds r actions h) [
        | inl e ↦ (r, omega arith, are_confirmed-IsConfirmed r actions e)
        | inr q ↦
            let (k, less, all) = confirm_rounds-IsConfirmed rounds (suc r) actions q in
            (k, omega (arith, less), all)
      ]

  -- When the cashout check passes, each node of the group has answered with its settlements, each peer
  -- from which something was received and was not cashed out at that time has been cashed out, and in
  -- one of ten rounds no cheque had bounced and all balances differed from those before the cashouts.
  pub run_cashout-IsConfirmed :
      (nodes : List String)
      → run_cashout cluster (some nodes) ≡ ok tt
      → (actions : List (CashoutAction Addr)) × ((node : String)
          → In node nodes
          → IsNodeCashed cluster node actions)
        × ((k : ℕ) × (k < 10) × ((a : CashoutAction Addr) → In a actions → IsConfirmed k a))
  unfolding run_cashout
  run_cashout-IsConfirmed nodes h =
      let (actions, cashed, h1) =
        >>=-eq-ok (cash_nodes cluster nodes []) (confirm_rounds cluster 10 0) h in
      let (k, less, all) = confirm_rounds-IsConfirmed 10 0 actions h1 in
      (
        actions,
        (cash_nodes-IsNodeCashed cluster nodes [] actions cashed).1,
        (k, omega (arith, less), all),
      )
