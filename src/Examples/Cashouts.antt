-- ===== src/Examples/Cashouts.antt =====
-- The cashout check (pkg/check/cashout) of a node with one cheque.
use beekeeper.Common.{
  ℕ, zero, suc, ◌<◌, ◌≡◌, refl, true, false, none, some, List, [], ◌∷◌, In, String,
}
use beekeeper.Common.Int.{pos}
use beekeeper.Common.Outcome.{ok, err}
use beekeeper.Checks.Cashout.{not_confirmed, CashoutAction, Cashouts, run_cashout}
use beekeeper.Checks.Cashed.{IsNodeCashed}
use beekeeper.Checks.Confirmed.{IsConfirmed, run_cashout-IsConfirmed}

-- The cheque is confirmed in the second round.
abbrev cheque : Cashouts String
cheque = record {
  parse = λ peer. some peer;
  has_client = λ node. true;
  settlements = λ actions node. some (record { peer = "aa"; received = pos 5 } ∷ []);
  uncashed = λ actions node peer. some (pos 5);
  balance = λ actions node. some (pos 10);
  cashout = λ actions node peer. some "0x1";
  result = λ r node peer. elim r [ zero ↦ some none | suc _ ↦ some (some false) ];
  balance_at = λ r node. some (pos 15);
}

cheque_run : run_cashout cheque (some ("bee-0" ∷ [])) ≡ ok tt
unfolding run_cashout
cheque_run = refl

never_confirmed :
    run_cashout (record cheque { result = λ r node peer. some none }) (some ("bee-0" ∷ []))
    ≡ err not_confirmed
unfolding run_cashout
never_confirmed = refl

run_cashout-IsConfirmed_example :
    (actions : List (CashoutAction String)) × ((node : String)
      → In node ("bee-0" ∷ [])
      → IsNodeCashed cheque node actions)
    × ((k : ℕ) × (k < 10) × ((a : CashoutAction String) → In a actions → IsConfirmed cheque k a))
run_cashout-IsConfirmed_example = run_cashout-IsConfirmed cheque ("bee-0" ∷ []) cheque_run
