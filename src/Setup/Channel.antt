-- ===== src/Setup/Channel.antt =====
-- What the goroutines of a setup (cmd/beekeeper/cmd/cluster.go) come to, in every order: all results
-- are received, or a failed one closes the channel under the rest.
use beekeeper.Common.{
  ℕ, suc, ◌≤◌, ◌≡◌, refl, ◌↔◌, none, some, List, [], ◌∷◌, ◌++◌, arith, String, In, In-append_left,
  length, length-append, sym,
}
use mathlib.Core.Path.{subst}
use mathlib.Core.List.{append_assoc, append-nil}
use mathlib.Core.List
use mathlib.Core.List.{Permᴰ}
use beekeeper.Common.Outcome.{Outcome, ok, err, panic}
use beekeeper.Setup.Launch.{SetupError, node_failed}
use beekeeper.Setup.Results.{
  NodeResult, receive, Receiver, waits, returned, Channel, take_result, Step, send, finish, Reach,
  here, next, launched_channel, Crashes,
}
use beekeeper.Setup.Arrivals.{
  In-Permᴰ, In-split, length-Permᴰ, receive-append, receive-err, receive-ne-panic,
}

module _ (results : List NodeResult) where
  -- What the receiver has seen.
  State : List NodeResult → List NodeResult → Receiver → Type 0
  State arrived sending (waits n found) = (receive [] arrived ≡ ok found) × (n ≡ length sending)
  State arrived sending (returned r) =
      (receive [] arrived ≡ r) × ((found : List String) → r ≡ ok found → sending ≡ [])

  -- The results have arrived in some order, but for those that are still to be sent.
  abbrev IsRun : Channel → Type 0
  IsRun c =
      (arrived : List NodeResult) × Permᴰ (arrived ++ c.sending) results
      × State arrived c.sending c.receiver

  taken :
      (arrived sending : List NodeResult) (r : NodeResult) (n : ℕ) (found : List String)
      → receive [] arrived ≡ ok found
      → n ≡ length sending
      → State (arrived ++ r ∷ []) sending (take_result n found r)
  unfolding State take_result receive
  taken arrived sending (name, none) n found h e =
      (receive-append found arrived (name, none) [] h, λ f q. cc)
  taken arrived sending (name, some a) n found h e =
      (receive-append found arrived (name, some a) [] h, e)

  Step-IsRun : {c d : Channel} → Step c d → IsRun c → IsRun d
  unfolding State
  Step-IsRun (send before after r n found) (arrived, p, (h, e)) = (
    arrived ++ r ∷ [],
    Permᴰ.trans (moved arrived before after r) p,
    taken arrived (before ++ after) r n found h
        (omega (arith, length-append before (r ∷ after), length-append before after)),
  )
    where
      moved :
          (xs ys zs : List NodeResult) (x : NodeResult)
          → Permᴰ ((xs ++ x ∷ []) ++ (ys ++ zs)) (xs ++ (ys ++ x ∷ zs))
      moved xs ys zs x =
          subst (λ l. Permᴰ l (xs ++ (ys ++ x ∷ zs))) (sym (append_assoc xs (x ∷ []) (ys ++ zs)))
            (List.Permᴰ.append_left xs (List.Permᴰ.symm (List.Permᴰ.middle x ys zs)))
  Step-IsRun (finish sending found) (arrived, p, (h, e)) = (arrived, p, (h, λ f q. empty sending e))
    where
      empty : (xs : List NodeResult) → 0 ≡ length xs → xs ≡ []
      empty [] q = refl
      empty (x ∷ xs) q = absurd (omega arith)

  Reach-IsRun : {c d : Channel} → IsRun c → Reach c d → IsRun d
  Reach-IsRun i here = i
  Reach-IsRun i (next r s) = Step-IsRun s (Reach-IsRun i r)

  launched-IsRun : IsRun (launched_channel (length results) results)
  unfolding State launched_channel receive
  launched-IsRun = ([], List.Permᴰ.refl results, (refl, refl))

  run : {c : Channel} → Reach (launched_channel (length results) results) c → IsRun c
  run r = Reach-IsRun launched-IsRun r

  -- Whatever the order of the goroutines, addresses that are returned are those that the loop finds
  -- in all the results, in some order, and no goroutine is left.
  pub Reach-ok :
      {c : Channel} (found : List String)
      → Reach (launched_channel (length results) results) c
      → c.receiver ≡ returned (ok found)
      → (order : List NodeResult) × Permᴰ order results
        × (receive [] order ≡ ok found)
        × (c.sending ≡ [])
  unfolding State
  Reach-ok {c} found r e =
      let (arrived, p, st) = run r in
      let seen : State arrived c.sending (returned (ok found)) =
        subst (λ w. State arrived c.sending w) e st in
      let empty = seen.1 found refl in
      (
        arrived,
        subst (λ l. Permᴰ l results) (append-nil arrived)
            (subst (λ l. Permᴰ (arrived ++ l) results) empty p),
        seen.0,
        empty,
      )

  -- A failed result, and the rest of the results, which are some.
  abbrev pub FailsAmong : Type 0
  FailsAmong =
      (before after : List NodeResult) × (name : String) × (results
        ≡ before ++ (name, none) ∷ after)
      × ((s : NodeResult) × (rest : List NodeResult) × (before ++ after ≡ s ∷ rest))

  -- Of a list with two elements and more, some are left without one.
  left_over :
      {A : Type 0} (before after : List A) (a : A)
      → 2 ≤ length (before ++ a ∷ after)
      → (s : A) × (rest : List A) × (before ++ after ≡ s ∷ rest)
  left_over [] [] a h = absurd (omega arith)
  left_over [] (x ∷ after) a h = (x, after, refl)
  left_over (x ∷ before) after a h = (x, before ++ after, refl)

  crash-FailsAmong :
      (c : Channel) → Reach (launched_channel (length results) results) c → Crashes c → FailsAmong
  unfolding State
  crash-FailsAmong c r (o, e, (s, rest, q)) = by_outcome o e
    where
      by_outcome : (w : Outcome SetupError (List String)) → c.receiver ≡ returned w → FailsAmong
      by_outcome w f =
          let (arrived, p, st) = run r in
          let seen : State arrived c.sending (returned w) =
            subst (λ v. State arrived c.sending v) f st in
          ended w arrived p seen.0 seen.1
        where
          ended :
              (v : Outcome SetupError (List String)) (arrived : List NodeResult)
              → Permᴰ (arrived ++ c.sending) results
              → receive [] arrived ≡ v
              → ((found : List String) → v ≡ ok found → c.sending ≡ [])
              → FailsAmong
          ended (ok found) arrived p h none_left = let z = none_left found refl in cc
          ended panic arrived p h none_left = absurd (receive-ne-panic arrived [] h)
          ended (err x) arrived p h none_left =
              let (name, i) = receive-err arrived [] x h in
              let (before, after, split) =
                In-split (name, none) results
                  (In-Permᴰ (name, none) p (In-append_left (name, none) arrived c.sending i)) in
              let some_arrived = not_empty (name, none) arrived i in
              let size = length-Permᴰ p in
              let count : length c.sending ≡ suc (length rest) = rw q refl in
              let two : 2 ≤ length results = omega (arith, length-append arrived c.sending) in
              (before, after, name, split, left_over before after (name, none) (rw split at two))
            where
              not_empty : (n : NodeResult) (xs : List NodeResult) → In n xs → 1 ≤ length xs
              not_empty n [] j = absurd j
              not_empty n (y ∷ ys) j = omega arith

-- The failed result comes first: the receiver returns, and the other goroutines are left.
FailsAmong-crash :
    (results : List NodeResult)
    → FailsAmong results
    → (c : Channel) × Reach (launched_channel (length results) results) c × Crashes c
unfolding launched_channel take_result
FailsAmong-crash results (before, after, name, e, left) = (
  record { sending = before ++ after; receiver = returned (err (node_failed name)) },
  subst (λ l. Reach (launched_channel (length l) l) failed) (sym e) first,
  (err (node_failed name), refl, left),
)
  where
    failed : Channel
    failed = record { sending = before ++ after; receiver = returned (err (node_failed name)) }

    size : length (before ++ (name, none) ∷ after) ≡ suc (length (before ++ after))
    size = omega (arith, length-append before ((name, none) ∷ after), length-append before after)

    first :
        Reach
          (launched_channel
            (length (before ++ (name, none) ∷ after))
            (before ++ (name, none) ∷ after))
          failed
    first =
        subst
          (λ k.
            Reach (record { sending = before ++ (name, none) ∷ after; receiver = waits k [] })
              failed)
          (sym size) (next here (send before after (name, none) (length (before ++ after)) []))

-- While the results are received, a goroutine can be left on the closed channel, where its send
-- panics, exactly when a result fails and is not the only one.
pub crash_iff :
    (results : List NodeResult)
    → ((c : Channel) × Reach (launched_channel (length results) results) c × Crashes c)
      ↔ FailsAmong results
crash_iff results = ((λ (c, r, x). crash-FailsAmong results c r x), FailsAmong-crash results)
