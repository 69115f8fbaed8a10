-- ===== src/Checks/Symmetry.antt =====
-- What a validated cluster satisfies (pkg/check/balances/balances.go, pkg/check/settlements/
-- settlements.go).
use beekeeper.Common.{
  ℕ, zero, suc, ◌≡◌, refl, ◌↔◌, inl, inr, Bool, false, not, [], ◌∷◌, arith, String, In, ap,
}
use beekeeper.Common.Int.{ℤ, pos, negsuc, ◌+ℤ◌, ◌*ℤ◌, ◌≤ℤ◌, eqb_ℤ, eqb_ℤ_iff, wrap64}
use beekeeper.Common.Outcome.{ok}
use beekeeper.Common.Dict.{Dict}
use beekeeper.Checks.Accounting.{
  Table, entry, row_fails, table_fails, asymmetric_balance, validate_balances, expect_rounds,
  expect_balances_have_changed, Account, SentReceived, no_account, exceeds_received, exceeds_given,
  check_row, check_thresholds, asymmetric_account, validate_settlements,
}

-- `node` has a row in the table, and the row an entry for `peer`.
abbrev pub HasEntry : {A : Type 0} → Table A → String → String → A → Type 0
HasEntry {A} table node peer x = (row : Dict A) × In (node, row) table × In (peer, x) row

module _ {A : Type 0} (fails : String → String → A → Bool) where
  row_fails-false :
      (node : String) (row : Dict A)
      → (row_fails fails node row ≡ false)
        ↔ ((peer : String) (x : A) → In (peer, x) row → fails node peer x ≡ false)
  unfolding row_fails
  row_fails-false node [] = ((λ h peer x i. absurd i), (λ h. refl))
  row_fails-false node ((p, y) ∷ row) =
      let (f, g) = row_fails-false node row in
      (
        (λ h peer x i. elim i [ inl e ↦ ground arith | inr j ↦ f (ground arith) peer x j ]),
        (λ h. ground (arith, h p y (inl refl), g (λ peer x i. h peer x (inr i)))),
      )

  -- No entry fails exactly when the flag stays down.
  pub table_fails-false :
      (table : Table A)
      → (table_fails fails table ≡ false)
        ↔ ((node peer : String) (x : A) → HasEntry table node peer x → fails node peer x ≡ false)
  unfolding table_fails
  table_fails-false [] = ((λ h node peer x i. absurd i.1), (λ h. refl))
  table_fails-false ((n, r) ∷ table) =
      let (f, g) = table_fails-false table in
      let (f', g') = row_fails-false n r in
      (
        (λ h node peer x i. elim i.1 [
          | inl e ↦
              let en = ap (λ (p : String × Dict A). p.0) e in
              let er = ap (λ (p : String × Dict A). p.1) e in
              rw en (f' (ground arith) peer x (rw er at i.2))
          | inr j ↦ f (ground arith) node peer x (i.0, j, i.2)
        ]),
        (λ h.
            let first : row_fails fails n r ≡ false =
              g' (λ peer x i. h n peer x (r, inl refl, i)) in
            let others : table_fails fails table ≡ false =
              g (λ node peer x i. h node peer x (i.0, inr i.1, i.2)) in
            ground arith),
      )

zero_iff : (z : ℤ) → (not (eqb_ℤ z (pos 0)) ≡ false) ↔ (z ≡ pos 0)
zero_iff z = ground (arith, eqb_ℤ_iff z (pos 0))

-- Balances are validated exactly when each balance that a node reports with a peer and the balance
-- that the peer reports with the node, 0 if it reports none, add up to 0 in 64 bits.
pub validate_balances-ok_iff :
    (balances : Table ℤ)
    → (validate_balances balances ≡ ok tt) ↔ (
        (node peer : String) (balance : ℤ)
        → HasEntry balances node peer balance
        → wrap64 (balance +ℤ entry (pos 0) balances peer node) ≡ pos 0)
unfolding validate_balances asymmetric_balance
validate_balances-ok_iff balances =
    let (f, g) = table_fails-false (asymmetric_balance balances) balances in
    (
      (λ h node peer x i. (zero_iff _).0 (f (ground arith) node peer x i)),
      (λ h.
          let symmetric : table_fails (asymmetric_balance balances) balances ≡ false =
            g (λ node peer x i. (zero_iff _).1 (h node peer x i)) in
          ground arith),
    )

-- An account within its thresholds: the balance is not below the negated threshold received, nor
-- above the threshold given.
abbrev pub IsWithin : Account → Type 0
IsWithin a =
    (wrap64 (negsuc 0 *ℤ a.current_threshold_received) ≤ℤ a.balance)
    × (a.balance ≤ℤ a.current_threshold_given)

check_row-ok_iff :
    (node : String) (row : Dict Account)
    → (check_row node row ≡ ok tt) ↔ ((peer : String) (a : Account) → In (peer, a) row → IsWithin a)
unfolding check_row exceeds_received exceeds_given
check_row-ok_iff node [] = ((λ h peer a i. absurd i), (λ h. refl))
check_row-ok_iff node ((p, b) ∷ row) =
    let (f, g) = check_row-ok_iff node row in
    (
      (λ h peer a i. elim i [
        | inl e ↦ let eb = ap (λ (q : String × Account). q.1) e in rw eb (ground arith)
        | inr j ↦ f (ground arith) peer a j
      ]),
      (λ h.
          let first : IsWithin b = h p b (inl refl) in
          let others : check_row node row ≡ ok tt = g (λ peer a i. h peer a (inr i)) in
          ground arith),
    )

check_thresholds-ok_iff :
    (accounting : Table Account)
    → (check_thresholds accounting ≡ ok tt)
      ↔ ((node peer : String) (a : Account) → HasEntry accounting node peer a → IsWithin a)
unfolding check_thresholds
check_thresholds-ok_iff [] = ((λ h node peer a i. absurd i.1), (λ h. refl))
check_thresholds-ok_iff ((n, r) ∷ accounting) =
    let (f, g) = check_thresholds-ok_iff accounting in
    let (f', g') = check_row-ok_iff n r in
    (
      (λ h node peer a i. elim i.1 [
        | inl e ↦
            let er = ap (λ (q : String × Dict Account). q.1) e in
            f' (ground arith) peer a (rw er at i.2)
        | inr j ↦ f (ground arith) node peer a (i.0, j, i.2)
      ]),
      (λ h.
          let first : check_row n r ≡ ok tt = g' (λ peer a i. h n peer a (r, inl refl, i)) in
          let others : check_thresholds accounting ≡ ok tt =
            g (λ node peer a i. h node peer a (i.0, inr i.1, i.2)) in
          ground arith),
    )

-- Settlements are validated exactly when every account is within its thresholds and the balances of
-- any two nodes add up to 0 in 64 bits: the settlements themselves do not count.
pub validate_settlements-ok_iff :
    (accounting : Table Account) (settlements : Table SentReceived)
    → ((validate_settlements accounting settlements).0 ≡ ok tt) ↔ (
        (node peer : String) (a : Account)
        → HasEntry accounting node peer a
        → IsWithin a
          × (wrap64 (a.balance +ℤ (entry no_account accounting peer node).balance) ≡ pos 0))
unfolding validate_settlements asymmetric_account
validate_settlements-ok_iff accounting settlements =
    let (f, g) = table_fails-false (asymmetric_account accounting) accounting in
    let (f', g') = check_thresholds-ok_iff accounting in
    (
      (λ h node peer a i.
          (f' (ground arith) node peer a i, (zero_iff _).0 (f (ground arith) node peer a i))),
      (λ h.
          let within : check_thresholds accounting ≡ ok tt =
            g' (λ node peer a i. (h node peer a i).0) in
          let symmetric : table_fails (asymmetric_account accounting) accounting ≡ false =
            g (λ node peer a i. (zero_iff _).1 (h node peer a i).1) in
          ground arith),
    )

expect_rounds-ok : (rounds : ℕ) (new_balances : Table ℤ) → expect_rounds rounds new_balances ≡ ok tt
unfolding expect_rounds validate_balances
expect_rounds-ok zero new_balances = refl
expect_rounds-ok (suc rounds) new_balances = ground (arith, expect_rounds-ok rounds new_balances)

-- `expectBalancesHaveChanged` never fails: not for balances that are as they were, and not for
-- balances that `validateBalances` refuses in every round.
pub expect_balances_have_changed-ok :
    (balances new_balances : Table ℤ) → expect_balances_have_changed balances new_balances ≡ ok tt
unfolding expect_balances_have_changed
expect_balances_have_changed-ok balances new_balances = expect_rounds-ok 5 new_balances
