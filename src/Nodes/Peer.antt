-- ===== src/Nodes/Peer.antt =====
-- What `ClosestPeer` of pkg/bee/client.go returns.
use beekeeper.Common.{
  ℕ, zero, suc, ◌≡◌, refl, ◌⊎◌, inl, inr, Bool, false, Option, none, some, List, [], ◌∷◌, ltb, In,
  Bool-cases, ◌∙◌, sym, ap,
}
use mathlib.Core.Path.{subst}
use beekeeper.Common.Outcome.{ok}
use beekeeper.Checks.Topology.{Topology}
use beekeeper.Nodes.FullNode.{
  retry, bin_key, populated, peers_of, PeerClient, is_listed, least_proximity, closest_peer, Asked,
}

-- Requests that are repeated succeed with one of the answers.
retry-Answer :
    {A : Type 0} (calls : ℕ → Option A) (rounds i : ℕ) (a : A)
    → (retry calls rounds i).0 ≡ some a
    → (k : ℕ) × (calls k ≡ some a)
unfolding retry
retry-Answer calls zero i a h = cc
retry-Answer calls (suc rounds) i a h = step (calls i) refl (retry-Answer calls rounds (suc i) a)
  where
    step :
        (o : Option _)
        → calls i ≡ o
        → ((retry calls rounds (suc i)).0 ≡ some a → (k : ℕ) × (calls k ≡ some a))
        → (k : ℕ) × (calls k ≡ some a)
    step none e rest = rest (rw (retry, e) at h)
    step (some b) e rest = let h' = rw (retry, e) at h in (i, e ∙ h')

module _ {A : Type 0} (equal : A → A → Bool) (proximity : A → A → ℕ) (zero_address : A)
    (s : PeerClient A) where
  -- The closest so far, or one of the peers that is not skipped.
  abbrev Kept : List A → A → A → List A → Type 0
  Kept skips found c ps = (found ≡ c) ⊎ (In found ps × (is_listed equal found skips ≡ false))

  least_proximity-Kept :
      (overlay : A) (skips : List A) (closest : A) (min_prox : ℕ) (peers : List A)
      → Kept skips
          (least_proximity equal proximity overlay skips closest min_prox peers)
          closest
          peers
  unfolding least_proximity
  least_proximity-Kept overlay skips closest min_prox [] = inl refl
  least_proximity-Kept overlay skips closest min_prox (peer ∷ peers) =
      step (least_proximity-Kept overlay skips closest min_prox peers)
        (least_proximity-Kept overlay skips peer (proximity overlay peer) peers)
    where
      step :
          Kept skips
            (least_proximity equal proximity overlay skips closest min_prox peers)
            closest
            peers
          → Kept skips
              (least_proximity equal proximity overlay skips peer (proximity overlay peer) peers)
              peer
              peers
          → Kept skips
              (least_proximity equal proximity overlay skips closest min_prox (peer ∷ peers))
              closest
              (peer ∷ peers)
      step passed taken = elim (Bool-cases (is_listed equal peer skips)) [
        | inl l ↦
            let e : least_proximity equal proximity overlay skips closest min_prox (peer ∷ peers)
                ≡ least_proximity equal proximity overlay skips closest min_prox peers =
              rw (least_proximity, l) refl in
            subst (λ f. Kept skips f closest (peer ∷ peers)) (sym e) (kept passed)
        | inr l ↦ elim (Bool-cases (ltb (proximity overlay peer) min_prox)) [
          | inl c ↦
              let e : least_proximity equal proximity overlay skips closest min_prox (peer ∷ peers)
                  ≡ least_proximity equal proximity overlay skips peer (proximity overlay peer)
                      peers =
                rw (least_proximity, l, c) refl in
              subst (λ f. Kept skips f closest (peer ∷ peers)) (sym e) (taken_peer l taken)
          | inr c ↦
              let e : least_proximity equal proximity overlay skips closest min_prox (peer ∷ peers)
                  ≡ least_proximity equal proximity overlay skips closest min_prox peers =
                rw (least_proximity, l, c) refl in
              subst (λ f. Kept skips f closest (peer ∷ peers)) (sym e) (kept passed)
        ]
      ]
        where
          taken_peer :
              {f : A}
              → is_listed equal peer skips ≡ false
              → Kept skips f peer peers
              → Kept skips f closest (peer ∷ peers)
          taken_peer l (inl e) = inr (inl e, rw e l)
          taken_peer l (inr (i, m)) = inr (inr i, m)

          kept : {f : A} → Kept skips f closest peers → Kept skips f closest (peer ∷ peers)
          kept (inl e) = inl e
          kept (inr (i, m)) = inr (inr i, m)

  -- A peer that is found is connected in the bin, by some answer, and is not skipped.
  abbrev pub IsPeer : ℕ → List A → A → Type 0
  IsPeer b skips addr =
      (k : ℕ) × (t : Topology A) × (s.topologies k ≡ some t)
      × In addr (peers_of (bin_key b) (populated t.bins))
      × (is_listed equal addr skips ≡ false)

  pub closest_peer-IsPeer :
      (asked : Asked) (b : ℕ) (skips : List A) (addr : A)
      → (closest_peer equal proximity zero_address s asked b skips).0 ≡ ok addr
      → (addr ≡ zero_address) ⊎ IsPeer b skips addr
  unfolding closest_peer
  closest_peer-IsPeer (i, j) b skips addr h = by_answer (retry s.topologies s.retry_count i) refl
    where
      found :
          (t : Topology A) (k : ℕ) (peer : A) (peers : List A)
          → s.topologies k ≡ some t
          → peers_of (bin_key b) (populated t.bins) ≡ peer ∷ peers
          → (own : Option A) → (retry s.overlays s.retry_count j).0 ≡ own
          → (retry s.topologies s.retry_count i).0 ≡ some t
          → (addr ≡ zero_address) ⊎ IsPeer b skips addr
      found t k peer peers e p none o a = let h' = rw (closest_peer, a, p, o) at h in cc
      found t k peer peers e p (some overlay) o a =
          let h' = rw (closest_peer, a, p, o) at h in
          let q : least_proximity equal proximity overlay skips zero_address 255 (peer ∷ peers)
              ≡ addr =
            cc in
          elim (subst (λ f. Kept skips f zero_address (peer ∷ peers)) q
            (least_proximity-Kept overlay skips zero_address 255 (peer ∷ peers))) [
              | inl z ↦ inl z
              | inr (l, m) ↦ inr (k, t, e, rw p l, m)
            ]

      by_peers :
          (t : Topology A) (k : ℕ)
          → s.topologies k ≡ some t
          → (retry s.topologies s.retry_count i).0 ≡ some t
          → (peers : List A) → peers_of (bin_key b) (populated t.bins) ≡ peers
          → (addr ≡ zero_address) ⊎ IsPeer b skips addr
      by_peers t k e a [] p = let h' = rw (closest_peer, a, p) at h in inl (cc)
      by_peers t k e a (peer ∷ peers) p =
          found t k peer peers e p (retry s.overlays s.retry_count j).0 refl a

      by_answer :
          (r : Option (Topology A) × ℕ)
          → retry s.topologies s.retry_count i ≡ r
          → (addr ≡ zero_address) ⊎ IsPeer b skips addr
      by_answer (none, i') e =
          let a = ap (λ (q : Option (Topology A) × ℕ). q.0) e in
          let h' = rw (closest_peer, a) at h in cc
      by_answer (some t, i') e =
          let a = ap (λ (q : Option (Topology A) × ℕ). q.0) e in
          let (k, f) = retry-Answer s.topologies s.retry_count i t a in
          by_peers t k f a (peers_of (bin_key b) (populated t.bins)) refl
