-- ===== src/Checks/Settled.antt =====
-- The run of pkg/check/settlements/settlements.go: the retries after an upload and after a download,
-- and the rounds. What the cluster answers, and what an upload and a download end in, are parameters.
use beekeeper.Common.{
  ℕ, zero, suc, ◌+◌, ◌≡◌, refl, ◌⊎◌, inl, inr, ◌<◌, ◌≤◌, Bool, true, false, not, ◌&&◌, ◌||◌, arith,
  if◌then◌else◌, Bool-cases,
}
use beekeeper.Common.Outcome.{Outcome, ok, err, panic, ◌>>=◌, ◌>>◌, >>=-eq-ok}
use beekeeper.Checks.Accounting.{
  Table, CheckError, settlements_not_valid, settlements_not_happened, Account, SentReceived,
  validate_settlements, settlements_have_happened,
}

-- What `FlattenAccounting` and then `FlattenSettlements` answer.
abbrev pub Observation : Type 0
Observation = Outcome CheckError (Table Account × Table SentReceived)

-- The settlements last seen, whether settlements have happened, and whether a round was valid.
pub record Waited : Type 0 where
  pub settlements : Table SentReceived
  pub happened : Bool
  pub valid : Bool

-- One round `t` of the retries, with the rounds after it handed in. `must_happen` is the test of the
-- loop after a download.
unfoldable pub wait_round :
    (must_happen : Bool) (previous : Table SentReceived)
    → Observation
    → Bool
    → (Table SentReceived → Bool → Outcome CheckError Waited)
    → Outcome CheckError Waited
wait_round must_happen previous (err e) happened rest = err e
wait_round must_happen previous panic happened rest = panic
wait_round must_happen previous (ok (accounting, settlements)) happened rest =
    let happened' = settlements_have_happened settlements previous || happened in
    elim (validate_settlements accounting settlements).0 [
      | ok _ ↦
          if must_happen && not happened'
          then err settlements_not_happened
          else ok (record { settlements = settlements; happened = happened'; valid = true })
      | err e ↦ rest settlements happened'
      | panic ↦ panic
    ]

unfoldable pub wait :
    (must_happen : Bool) (previous : Table SentReceived) (observe : ℕ → Observation)
    → (rounds t : ℕ) → Table SentReceived
    → Bool
    → Outcome CheckError Waited
unfolding wait_round
wait must_happen previous observe zero t settlements happened =
    ok (record { settlements = settlements; happened = happened; valid = false })
wait must_happen previous observe (suc rounds) t settlements happened =
    wait_round must_happen previous (observe t) happened
      (wait must_happen previous observe rounds (t + 1))

-- `if !settlementsValid { return errors.New("settlements are not valid") }`
unfoldable pub require_valid : Waited → Outcome CheckError Waited
require_valid w = if w.valid then ok w else err settlements_not_valid

-- The parts of round `i` that leave the accounting alone: the upload, and the download with the
-- test of the file's hash; and what is observed in each retry after them.
pub record World : Type 0 where
  pub upload : ℕ → Outcome CheckError (Unit {0})
  pub download : ℕ → Outcome CheckError (Unit {0})
  pub after_upload : ℕ → ℕ → Observation
  pub after_download : ℕ → ℕ → Observation
  pub initial : Observation

module _ (world : World) (expect_settlements : Bool) where
  unfoldable pub round : ℕ → Table SentReceived → Outcome CheckError Waited
  unfolding wait require_valid
  round i settlements = do
    world.upload i
    w ← wait false settlements (world.after_upload i) 7 0 settlements false
    up ← require_valid w
    world.download i
    w' ←
        wait expect_settlements up.settlements (world.after_download i) 7 0 up.settlements
          up.happened
    require_valid w'

  unfoldable pub rounds_from : ℕ → ℕ → Table SentReceived → Outcome CheckError (Unit {0})
  unfolding round
  rounds_from zero i settlements = ok tt
  rounds_from (suc n) i settlements =
      round i settlements >>= λ w. rounds_from n (i + 1) w.settlements

  unfoldable pub validated : Observation → Outcome CheckError (Table SentReceived)
  unfolding validate_settlements
  validated (ok (accounting, settlements)) =
      (validate_settlements accounting settlements).0 >> ok settlements
  validated (err e) = err e
  validated panic = panic

  unfoldable pub run : ℕ → Outcome CheckError (Unit {0})
  unfolding validated rounds_from
  run upload_node_count = validated world.initial >>= rounds_from upload_node_count 0

-- A valid observation in one of the rounds.
abbrev pub Seen : (ℕ → Observation) → ℕ → ℕ → Table SentReceived → Type 0
Seen observe t rounds settlements =
    (j : ℕ) × (accounting : Table Account) × (t ≤ j)
    × (j < t + rounds)
    × (observe j ≡ ok (accounting, settlements))
    × ((validate_settlements accounting settlements).0 ≡ ok tt)

-- An observation in one of the rounds whose settlements differ from the previous ones.
abbrev pub Changed : (ℕ → Observation) → Table SentReceived → ℕ → ℕ → Type 0
Changed observe previous t rounds =
    (j : ℕ) × (accounting : Table Account) × (settlements : Table SentReceived) × (t ≤ j)
    × (j < t + rounds)
    × (observe j ≡ ok (accounting, settlements))
    × (settlements_have_happened settlements previous ≡ true)

module _ (must_happen : Bool) (previous : Table SentReceived) (observe : ℕ → Observation) where
  abbrev IsSettled : ℕ → ℕ → Bool → Waited → Type 0
  IsSettled t rounds happened w =
      (w.valid ≡ true
        → Seen observe t rounds w.settlements × (must_happen ≡ true → w.happened ≡ true))
      × (w.happened ≡ true → (happened ≡ true) ⊎ Changed observe previous t rounds)

  -- A round that is not the one whose result counts.
  later :
      (t rounds : ℕ) (happened : Bool) (w : Waited) (accounting : Table Account)
      (settlements : Table SentReceived)
      → observe t ≡ ok (accounting, settlements)
      → IsSettled (t + 1) rounds (settlements_have_happened settlements previous || happened) w
      → IsSettled t (suc rounds) happened w
  later t rounds happened w accounting settlements o (f, g) = (
    (λ v. let ((j, a, l, u, e, c), m) = f v in ((j, a, omega arith, omega arith, e, c), m)),
    (λ v. elim (g v) [
      | inl h ↦ elim (Bool-cases (settlements_have_happened settlements previous)) [
        | inl c ↦ inr (t, accounting, settlements, omega arith, omega arith, o, c)
        | inr c ↦ inl (ground arith)
      ]
      | inr (j, a, s, l, u, e, c) ↦ inr (j, a, s, omega arith, omega arith, e, c)
    ]),
  )

  -- The round whose observation is valid ends the loop.
  ended :
      (t rounds : ℕ) (happened : Bool) (w : Waited) (accounting : Table Account)
      (settlements : Table SentReceived)
      → observe t ≡ ok (accounting, settlements)
      → (validate_settlements accounting settlements).0 ≡ ok tt
      → (must_happen && not (settlements_have_happened settlements previous || happened)) ≡ false
      → w ≡ record {
        settlements = settlements;
        happened = settlements_have_happened settlements previous || happened;
        valid = true;
      }
      → IsSettled t (suc rounds) happened w
  ended t rounds happened w accounting settlements o v c e = rw e (
    (λ q. ((t, accounting, omega arith, omega arith, o, v), (λ m. ground arith))),
    (λ q. elim (Bool-cases (settlements_have_happened settlements previous)) [
      | inl d ↦ inr (t, accounting, settlements, omega arith, omega arith, o, d)
      | inr d ↦ inl (ground arith)
    ]),
  )

  wait_round-IsSettled :
      (t rounds : ℕ) (happened : Bool) (w : Waited) (o : Observation)
      (rest : Table SentReceived → Bool → Outcome CheckError Waited)
      → observe t ≡ o
      → ((s : Table SentReceived) (h : Bool) → rest s h ≡ ok w → IsSettled (t + 1) rounds h w)
      → wait_round must_happen previous o happened rest ≡ ok w
      → IsSettled t (suc rounds) happened w
  unfolding wait_round
  wait_round-IsSettled t rounds happened w (err e) rest o j h = ground arith
  wait_round-IsSettled t rounds happened w panic rest o j h = ground arith
  wait_round-IsSettled t rounds happened w (ok (accounting, settlements)) rest o j h =
      decided (validate_settlements accounting settlements).0 refl h
    where
      decided :
          (v : Outcome CheckError (Unit {0}))
          → (validate_settlements accounting settlements).0 ≡ v
          → wait_round must_happen previous (ok (accounting, settlements)) happened rest ≡ ok w
          → IsSettled t (suc rounds) happened w
      decided (ok tt) e h' =
          elim (Bool-cases
            (must_happen && not (settlements_have_happened settlements previous || happened))) [
              | inl c ↦ ground arith
              | inr c ↦ ended t rounds happened w accounting settlements o e c (ground arith)
            ]
      decided (err x) e h' =
          later t rounds happened w accounting settlements o (j settlements _ (ground arith))
      decided panic e h' = ground arith

  wait-IsSettled :
      (t rounds : ℕ) (settlements : Table SentReceived) (happened : Bool) (w : Waited)
      → wait must_happen previous observe rounds t settlements happened ≡ ok w
      → IsSettled t rounds happened w
  unfolding wait
  wait-IsSettled t zero settlements happened w h = ((λ v. ground arith), (λ v. inl (ground arith)))
  wait-IsSettled t (suc rounds) settlements happened w h =
      wait_round-IsSettled t rounds happened w (observe t)
        (wait must_happen previous observe rounds (t + 1)) refl
        (λ s b. wait-IsSettled (t + 1) rounds s b w) h

require_valid-eq-ok : (v w : Waited) → require_valid v ≡ ok w → (w ≡ v) × (v.valid ≡ true)
unfolding require_valid
require_valid-eq-ok v w h = ground arith

-- The two loops of a round, put together.
both_IsSettled :
    (expect_settlements : Bool) (up_observe down_observe : ℕ → Observation)
    (before : Table SentReceived) (u up d w : Waited)
    → up ≡ u
    → u.valid ≡ true
    → w ≡ d
    → d.valid ≡ true
    → IsSettled false before up_observe 0 7 false u
    → IsSettled expect_settlements up.settlements down_observe 0 7 up.happened d
    → (middle : Table SentReceived) × Seen up_observe 0 7 middle
      × Seen down_observe 0 7 w.settlements
      × (expect_settlements ≡ true
          → Changed up_observe before 0 7 ⊎ Changed down_observe middle 0 7)
both_IsSettled expect_settlements up_observe down_observe before u up d w qu vu qd vd (fu, gu)
      (fd, gd) =
    (
      up.settlements,
      rw qu (fu vu).0,
      rw qd (fd vd).0,
      λ e. elim (gd ((fd vd).1 e)) [
        | inr c ↦ inr c
        | inl c ↦ elim (gu (rw qu at c)) [ inl f ↦ ground arith | inr k ↦ inl k ]
      ],
    )

-- A round of the check that passes has seen valid accounts within seven observations after the
-- upload and again after the download, where it ends; and if settlements are expected, one of the
-- observations differs from the settlements before the round, or from those after the upload.
pub round-IsSettled :
    (world : World) (expect_settlements : Bool) (i : ℕ) (before : Table SentReceived) (w : Waited)
    → round world expect_settlements i before ≡ ok w
    → (middle : Table SentReceived) × Seen (world.after_upload i) 0 7 middle
      × Seen (world.after_download i) 0 7 w.settlements
      × (expect_settlements ≡ true
          → Changed (world.after_upload i) before 0 7 ⊎ Changed (world.after_download i) middle 0 7)
unfolding round
round-IsSettled world expect_settlements i before w h =
    let (x, e, h1) = >>=-eq-ok (world.upload i) _ h in
    let (u, eu, h2) = >>=-eq-ok (wait false before (world.after_upload i) 7 0 before false) _ h1 in
    let (up, ep, h3) = >>=-eq-ok (require_valid u) _ h2 in
    let (y, ey, h4) = >>=-eq-ok (world.download i) _ h3 in
    let (d, ed, h5) =
      >>=-eq-ok
        (wait expect_settlements up.settlements (world.after_download i) 7 0 up.settlements
          up.happened)
        _ h4 in
    let (qu, vu) = require_valid-eq-ok u up ep in
    let (qd, vd) = require_valid-eq-ok d w h5 in
    both_IsSettled expect_settlements (world.after_upload i) (world.after_download i) before u up d
      w qu vu qd vd (wait-IsSettled false before (world.after_upload i) 0 7 before false u eu)
      (wait-IsSettled expect_settlements up.settlements (world.after_download i) 0 7 up.settlements
        up.happened d ed)
