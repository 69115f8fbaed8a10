-- ===== src/Setup/Answered.antt =====
-- What the goroutines of the nodes have sent when `setupBootnodes` or `setupNodes` of
-- cmd/beekeeper/cmd/cluster.go returns addresses.
use beekeeper.Common.{
  ◌≡◌, refl, ◌≢◌, ◌⊎◌, inl, inr, Option, none, some, List, [], ◌∷◌, ◌++◌, In, String, str_eq,
  eq_iff, Bool-cases, sym, ◌∙◌,
}
use mathlib.Core.Path.{subst}
use mathlib.Core.List.{append_assoc, append-nil}
use beekeeper.Common.Outcome.{Outcome, ok, err, panic}
use beekeeper.Setup.Launch.{SetupError, Launched, Profiles, Setup}
use beekeeper.Setup.Results.{add_address, receive}
use beekeeper.Setup.Arrivals.{In-Permᴰ}
use beekeeper.Setup.Cluster.{World, results_of, await}

module _ (answer : Launched → Option String) where
  -- Each node has answered, and the addresses are the answers that are not empty, in their order.
  abbrev pub AreSent : List Launched → List String → Type 0
  AreSent [] addresses = addresses ≡ []
  AreSent (l ∷ ls) addresses =
      (a : String) × (answer l ≡ some a)
      × (((a ≡ "") × AreSent ls addresses)
          ⊎ ((a ≢ "") × ((rest : List String) × (addresses ≡ a ∷ rest) × AreSent ls rest)))

  receive-AreSent :
      (ls : List Launched) (found addresses : List String)
      → receive found (results_of answer ls) ≡ ok addresses
      → (sent : List String) × (addresses ≡ found ++ sent) × AreSent ls sent
  unfolding receive add_address
  receive-AreSent [] found addresses h =
      ([], (let e : found ≡ addresses = cc in sym e ∙ sym (append-nil found)), refl)
  receive-AreSent (l ∷ ls) found addresses h = answered (answer l) refl (receive-AreSent ls)
    where
      Goal : Type 0
      Goal = (sent : List String) × (addresses ≡ found ++ sent) × AreSent (l ∷ ls) sent

      answered :
          (o : Option String)
          → answer l ≡ o
          → ((found' addresses' : List String)
              → receive found' (results_of answer ls) ≡ ok addresses'
              → (sent : List String) × (addresses' ≡ found' ++ sent) × AreSent ls sent)
          → Goal
      answered none e others = let h' = rw (e, receive) at h in cc
      answered (some a) e others = elim (Bool-cases (str_eq a "")) [
        | inl z ↦
            let h' : receive found (results_of answer ls) ≡ ok addresses =
              rw (e, receive, add_address, z) at h in
            let (sent, q, s) = others found addresses h' in
            (sent, q, (a, e, inl ((eq_iff a "").0 z, s)))
        | inr z ↦
            let h' : receive (found ++ a ∷ []) (results_of answer ls) ≡ ok addresses =
              rw (e, receive, add_address, z) at h in
            let (sent, q, s) = others (found ++ a ∷ []) addresses h' in
            (
              a ∷ sent,
              q ∙ append_assoc found (a ∷ []) sent,
              (a, e, inr ((λ p. let t = (eq_iff a "").1 p in cc), (sent, refl, s))),
            )
      ]

  AreSent-answer :
      (ls : List Launched) (addresses : List String) (l : Launched)
      → AreSent ls addresses
      → In l ls
      → (a : String) × (answer l ≡ some a)
  AreSent-answer [] addresses l s i = absurd i
  AreSent-answer (k ∷ ls) addresses l (a, e, s) (inl q) =
      subst (λ x. (b : String) × (answer x ≡ some b)) (sym q) (a, e)
  AreSent-answer (k ∷ ls) addresses l (a, e, s) (inr i) = elim s [
    | inl (_, s') ↦ AreSent-answer ls addresses l s' i
    | inr (_, (rest, _, s')) ↦ AreSent-answer ls rest l s' i
  ]

module _ (world : World) (profiles : Profiles) where
  -- Each of the nodes has answered without an error, and the addresses are the answers that are not
  -- empty, in the order of their arrival.
  abbrev pub AreAnswered : List Launched → List String → Type 0
  AreAnswered nodes addresses =
      ((l : Launched) → In l nodes → (a : String) × (world.answer l ≡ some a))
      × AreSent world.answer (world.arrival nodes) addresses

  pub await-ok :
      (l : Outcome SetupError (Unit {0}) × Setup) (addresses : List String)
      → await world profiles l ≡ ok addresses
      → (l.0 ≡ ok tt) × AreAnswered l.1.launched addresses
  unfolding await
  await-ok (ok u, s) addresses h =
      let (sent, e, all) = receive-AreSent world.answer (world.arrival s.launched) [] addresses h in
      let same : AreSent world.answer (world.arrival s.launched) addresses =
        subst (λ x. AreSent world.answer (world.arrival s.launched) x) (sym e) all in
      (
        refl,
        (
          (λ l i.
              AreSent-answer world.answer (world.arrival s.launched) addresses l same
                (In-Permᴰ l (world.arrives s.launched) i)),
          same,
        ),
      )
  await-ok (err e, s) addresses h = cc
  await-ok (panic, s) addresses h = cc
