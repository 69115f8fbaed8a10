-- ===== src/Checks/Accounting.antt =====
-- `validateBalances` and `expectBalancesHaveChanged` of pkg/check/balances/balances.go, and
-- `validateSettlements` and the retries of `Run` of pkg/check/settlements/settlements.go. A map of
-- maps is a dictionary of dictionaries, whose order is the order of a `range`; a missing entry reads
-- as zero.
use beekeeper.Common.{
  ℕ, zero, suc, Bool, false, not, ◌||◌, none, some, List, [], ◌∷◌, if◌then◌else◌, String,
}
use beekeeper.Common.Int.{ℤ, pos, negsuc, ◌+ℤ◌, ◌-ℤ◌, ◌*ℤ◌, ltb_ℤ, eqb_ℤ, wrap64}
use beekeeper.Common.Outcome.{Outcome, ok, err, panic, ◌>>◌}
use beekeeper.Common.Dict.{Dict, lookup, insert}

abbrev pub Table : Type 0 → Type 0
Table A = Dict (Dict A)

-- `table[a][b]`, or the zero value.
unfoldable pub entry : {A : Type 0} → A → Table A → String → String → A
entry zero_value table a b = elim (lookup a table) [
  | none ↦ zero_value
  | some row ↦ elim (lookup b row) [ none ↦ zero_value | some x ↦ x ]
]

-- A flag that the two nested loops set: whether some entry of the table fails the test.
module _ {A : Type 0} (fails : String → String → A → Bool) where
  unfoldable pub row_fails : String → Dict A → Bool
  row_fails node [] = false
  row_fails node ((peer, x) ∷ row) = fails node peer x || row_fails node row

  unfoldable pub table_fails : Table A → Bool
  unfolding row_fails
  table_fails [] = false
  table_fails ((node, row) ∷ table) = row_fails node row || table_fails table

pub data CheckError : Type 0 where
  no_symmetry settlements_not_valid settlements_not_happened unavailable : CheckError
  received_threshold given_threshold : (node : String) → CheckError

-- `diff := balance + balances[peer][node]; diff != 0`
unfoldable pub asymmetric_balance : Table ℤ → String → String → ℤ → Bool
unfolding entry
asymmetric_balance balances node peer balance =
    not (eqb_ℤ (wrap64 (balance +ℤ entry (pos 0) balances peer node)) (pos 0))

unfoldable pub validate_balances : Table ℤ → Outcome CheckError (Unit {0})
unfolding table_fails asymmetric_balance
validate_balances balances =
    if table_fails (asymmetric_balance balances) balances then err no_symmetry else ok tt

-- `maps.Copy(res, ngb)`, and `flattenBalances` over the node groups.
unfoldable pub copy : {A : Type 0} → Dict A → Dict A → Dict A
unfolding insert
copy dst [] = dst
copy dst ((k, v) ∷ src) = copy (insert k v dst) src

unfoldable pub flatten_from : {A : Type 0} → Table A → List (Table A) → Table A
unfolding copy
flatten_from res [] = res
flatten_from res (group ∷ groups) = flatten_from (copy res group) groups

unfoldable pub flatten_balances : List (Table ℤ) → Table ℤ
unfolding flatten_from
flatten_balances groups = flatten_from [] groups

-- The rounds of `expectBalancesHaveChanged`, which only log what they find.
unfoldable pub expect_rounds : ℕ → Table ℤ → Outcome CheckError (Unit {0})
unfolding validate_balances
expect_rounds zero new_balances = ok tt
expect_rounds (suc rounds) new_balances =
    let rest = expect_rounds rounds new_balances in
    elim (validate_balances new_balances) [ ok _ ↦ ok tt | err e ↦ rest | panic ↦ panic ]

unfoldable pub expect_balances_have_changed : Table ℤ → Table ℤ → Outcome CheckError (Unit {0})
unfolding expect_rounds
expect_balances_have_changed balances new_balances = expect_rounds 5 new_balances

pub record Account : Type 0 where
  pub balance : ℤ
  pub current_threshold_received : ℤ
  pub current_threshold_given : ℤ

pub record SentReceived : Type 0 where
  pub received : ℤ
  pub sent : ℤ

abbrev pub no_account : Account
no_account = record {
  balance = pos 0;
  current_threshold_received = pos 0;
  current_threshold_given = pos 0;
}

abbrev pub no_settlement : SentReceived
no_settlement = record { received = pos 0; sent = pos 0 }

-- `peerInfo.Balance < -1*peerInfo.CurrentThresholdReceived`, `-1*` wrapping at -2^63.
unfoldable pub exceeds_received : Account → Bool
exceeds_received a = ltb_ℤ a.balance (wrap64 (negsuc 0 *ℤ a.current_threshold_received))

unfoldable pub exceeds_given : Account → Bool
exceeds_given a = ltb_ℤ a.current_threshold_given a.balance

unfoldable pub check_row : String → Dict Account → Outcome CheckError (Unit {0})
unfolding exceeds_received exceeds_given
check_row node [] = ok tt
check_row node ((_, a) ∷ row) =
    let rest = check_row node row in
    if exceeds_received a
    then err (received_threshold node)
    else if exceeds_given a
    then err (given_threshold node)
    else rest

unfoldable pub check_thresholds : Table Account → Outcome CheckError (Unit {0})
unfolding check_row
check_thresholds [] = ok tt
check_thresholds ((node, row) ∷ accounting) = check_row node row >> check_thresholds accounting

unfoldable pub asymmetric_account : Table Account → String → String → Account → Bool
unfolding entry
asymmetric_account accounting node peer a =
    not (eqb_ℤ (wrap64 (a.balance +ℤ (entry no_account accounting peer node).balance)) (pos 0))

-- `settlement.Received - settlements[peer][node].Sent`
unfoldable pub asymmetric_settlement : Table SentReceived → String → String → SentReceived → Bool
unfolding entry
asymmetric_settlement settlements node peer s =
    not (eqb_ℤ (wrap64 (s.received -ℤ (entry no_settlement settlements peer node).sent)) (pos 0))

-- The result, and whether the last loop logs that the settlements are not symmetric.
unfoldable pub validate_settlements :
    Table Account → Table SentReceived → Outcome CheckError (Unit {0}) × Bool
unfolding check_thresholds table_fails asymmetric_account asymmetric_settlement
validate_settlements accounting settlements = elim (check_thresholds accounting) [
  | err e ↦ (err e, false)
  | panic ↦ (panic, false)
  | ok _ ↦
      if table_fails (asymmetric_account accounting) accounting
      then (err no_symmetry, false)
      else (ok tt, table_fails (asymmetric_settlement settlements) settlements)
]

unfoldable pub has_changed : Table SentReceived → String → String → SentReceived → Bool
unfolding entry
has_changed previous node peer s =
    not (eqb_ℤ s.received (entry no_settlement previous node peer).received)
    || not (eqb_ℤ s.sent (entry no_settlement previous node peer).sent)

unfoldable pub settlements_have_happened : Table SentReceived → Table SentReceived → Bool
unfolding table_fails has_changed
settlements_have_happened current previous = table_fails (has_changed previous) current
