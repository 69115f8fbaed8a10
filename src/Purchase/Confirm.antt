-- ===== src/Purchase/Confirm.antt =====
-- What the waits of pkg/bee/client.go have seen when they end well.
use beekeeper.Common.{
  ℕ, zero, suc, ◌+◌, ◌≤◌, ◌<◌, ◌≡◌, refl, ◌↔◌, inl, inr, Bool, true, false, Option, none, some,
  arith, if◌then◌else◌, String, Bool-cases, ltb,
}
use native.Mathlib.Decide.{ℕ_discrete}
use beekeeper.Common.Int.{ℤ}
use beekeeper.Common.Outcome.{ok}
use beekeeper.Stamper.Batch.{PostageStampResponse}
use beekeeper.Stamper.Node.{create_batch}
use beekeeper.Purchase.Buy.{BatchApi, wait_usable, confirm, create_postage_batch}

module _ (api : BatchApi) where
  -- An answer without a usable batch.
  abbrev pub IsPending : Option PostageStampResponse → Type 0
  IsPending none = Unit
  IsPending (some b) = b.usable ≡ false

  -- The first usable answer from number `i` on, within the rounds, is of a batch that exists.
  abbrev pub BecomesUsable : ℕ → ℕ → Type 0
  BecomesUsable i rounds =
      (j : ℕ) × (b : PostageStampResponse) × (i ≤ j)
      × (j < i + rounds)
      × (api.stamp j ≡ some b)
      × (b.usable ≡ true)
      × (b.exists ≡ true)
      × ((k : ℕ) → i ≤ k → k < j → IsPending (api.stamp k))

  -- A round that is pending, before the one that counts.
  sooner :
      (i rounds : ℕ)
      → IsPending (api.stamp i)
      → BecomesUsable (suc i) rounds
      → BecomesUsable i (suc rounds)
  sooner i rounds p (j, b, l, u, e, x, y, before) =
      (j, b, omega arith, omega arith, e, x, y, earlier)
    where
      earlier : (k : ℕ) → i ≤ k → k < j → IsPending (api.stamp k)
      earlier k a c = elim (ℕ_discrete i k) [
        | yes same ↦ rw (← same) p
        | no other ↦ before k (omega arith) c
      ]

  later :
      (i rounds : ℕ)
      → IsPending (api.stamp i)
      → BecomesUsable i (suc rounds)
      → BecomesUsable (suc i) rounds
  later i rounds p (j, b, l, u, e, x, y, before) = elim (ℕ_discrete i j) [
    | yes same ↦ absurd (pending (rw (← same) p) e x)
    | no other ↦ (j, b, omega arith, omega arith, e, x, y, λ k a c. before k (omega arith) c)
  ]
    where
      pending : IsPending (api.stamp j) → api.stamp j ≡ some b → b.usable ≡ true → ⊥
      pending p' e' x' = let q = rw e' at p' in ground arith

  -- An answer that is usable ends the wait.
  usable_now :
      (i rounds : ℕ) (b : PostageStampResponse)
      → api.stamp i ≡ some b
      → b.usable ≡ true
      → (b.exists ≡ true) ↔ BecomesUsable i (suc rounds)
  usable_now i rounds b e u = (
    (λ x. (i, b, omega arith, omega arith, e, u, x, λ k a c. absurd (omega arith))),
    (λ (j, c, l, m, f, v, x, before). elim (ℕ_discrete i j) [
      | yes same ↦ same_batch (rw (← same) at f) x
      | no other ↦ absurd (pending (before i (omega arith) (omega arith)))
    ]),
  )
    where
      same_batch :
          {c : PostageStampResponse} → api.stamp i ≡ some c → c.exists ≡ true → b.exists ≡ true
      same_batch {c = c} f x = let q : some b ≡ some c = cc in ground arith

      pending : IsPending (api.stamp i) → ⊥
      pending p = let q = rw e at p in ground arith

  pair_iff : (x : Bool) → (◌≡◌ {A = Bool × Bool} (x, true) (true, true)) ↔ (x ≡ true)
  pair_iff true = ((λ h. refl), (λ h. refl))
  pair_iff false = ((λ h. cc), (λ h. cc))

  wait_usable_iff :
      (rounds i : ℕ) (exists : Bool)
      → (wait_usable api rounds i exists false ≡ (true, true)) ↔ BecomesUsable i rounds
  unfolding wait_usable
  wait_usable_iff zero i exists =
      ((λ h. cc), (λ (j, b, l, m, e, u, x, before). absurd (omega arith)))
  wait_usable_iff (suc rounds) i exists =
      answered (api.stamp i) refl (λ x. wait_usable_iff rounds (suc i) x)
    where
      answered :
          (r : Option PostageStampResponse)
          → api.stamp i ≡ r
          → ((x : Bool)
              → (wait_usable api rounds (suc i) x false ≡ (true, true))
                ↔ BecomesUsable (suc i) rounds)
          → (wait_usable api (suc rounds) i exists false ≡ (true, true))
            ↔ BecomesUsable i (suc rounds)
      answered none e rest =
          let (f, g) = rest exists in
          rw (e, wait_usable)
            ((λ h. sooner i rounds (rw e tt) (f h)), (λ h. g (later i rounds (rw e tt) h)))
      answered (some b) e rest = elim (Bool-cases b.usable) [
        | inl u ↦
            let (f, g) = usable_now i rounds b e u in
            rw (e, u, wait_usable)
              ((λ h. f ((pair_iff b.exists).0 h)), (λ h. (pair_iff b.exists).1 (g h)))
        | inr u ↦
            let (f, g) = rest b.exists in
            rw (e, u, wait_usable)
              ((λ h. sooner i rounds (rw e u) (f h)), (λ h. g (later i rounds (rw e u) h)))
      ]

  -- A quiet purchase returns an id exactly when the node gives that id to the purchase, at the depth
  -- asked for or 2 if that is less, and the first usable answer among the 900 that follow is of a
  -- batch that exists.
  pub create_postage_batch-ok_iff :
      (amount : ℤ) (depth : ℕ) (label id : String)
      → ((create_postage_batch api amount depth label false).0 ≡ ok id) ↔ (
          (api.buy (create_batch amount (if ltb depth 2 then 2 else depth) label) ≡ some id)
          × BecomesUsable 0 900)
  unfolding create_postage_batch confirm
  create_postage_batch-ok_iff amount depth label id =
      bought (api.buy (create_batch amount (if ltb depth 2 then 2 else depth) label)) refl
    where
      confirmed :
          (x : String) (w : Bool × Bool)
          → (w ≡ (true, true)) ↔ BecomesUsable 0 900
          → (confirm api x false w ≡ ok id)
            ↔ ((◌≡◌ {A = Option String} (some x) (some id)) × BecomesUsable 0 900)
      confirmed x (true, true) (f, g) = ((λ h. (cc, f refl)), (λ (q, k). cc))
      confirmed x (true, false) (f, g) = ((λ h. cc), (λ (q, k). let z = g k in ground arith))
      confirmed x (false, u) (f, g) = ((λ h. cc), (λ (q, k). let z = g k in ground arith))

      bought :
          (r : Option String)
          → api.buy (create_batch amount (if ltb depth 2 then 2 else depth) label) ≡ r
          → ((create_postage_batch api amount depth label false).0 ≡ ok id) ↔ (
              (api.buy (create_batch amount (if ltb depth 2 then 2 else depth) label) ≡ some id)
              × BecomesUsable 0 900)
      bought none e = rw (e, create_postage_batch) ((λ h. cc), (λ (q, k). cc))
      bought (some x) e =
          rw (e, create_postage_batch)
            (confirmed x (wait_usable api 900 0 false false) (wait_usable_iff 900 0 false))
