-- ===== src/Checks/Listed.antt =====
-- The peers that the bins of a node list at its depth or deeper (pkg/check/kademlia/kademlia.go).
use beekeeper.Common.{
  ℕ, ◌≡◌, refl, ◌↔◌, inl, inr, Bool, true, List, [], ◌∷◌, arith, All, In, In-append_cases,
  In-append_left, In-append_right, Bool-cases, ◌++◌, ◌⊎◌, if◌then◌else◌, ap, sym, ◌∙◌,
}
use mathlib.Core.Path.{subst}
use beekeeper.Common.Int.{ℤ, ◌≤ℤ◌, leb_ℤ}
use beekeeper.Common.Outcome.{Outcome, ok, >>=-eq-ok}
use beekeeper.Checks.Topology.{KademliaError, Bin, bin_number, peers_within}

ok-same : {B : Type 0} {m n : B} → ◌≡◌ {A = Outcome KademliaError B} (ok m) (ok n) → m ≡ n
ok-same e = cc

module _ {A : Type 0} where
  -- Every key has an "_", after which a number is read, though perhaps with an error.
  abbrev pub HasNumbers : List (List ℕ × Bin A) → Type 0
  HasNumbers bins = All (λ b. (n : ℤ) × (parsed : Bool) × (bin_number b.0 ≡ ok (n, parsed))) bins

  -- What the peers within the depth are, one bin with a number at a time.
  peers_within-cons :
      (depth n : ℤ) (parsed : Bool) (key : List ℕ) (b : Bin A) (bins : List (List ℕ × Bin A))
      (rest : List A)
      → bin_number key ≡ ok (n, parsed)
      → peers_within depth bins ≡ ok rest
      → peers_within depth ((key, b) ∷ bins)
        ≡ ok (if leb_ℤ depth n then b.connected_peers ++ rest else rest)
  unfolding peers_within
  peers_within-cons depth n parsed key b bins rest e q = rw (e, q, peers_within) refl

  pub peers_within-total :
      (depth : ℤ) (bins : List (List ℕ × Bin A))
      → HasNumbers bins
      → (nodes : List A) × (peers_within depth bins ≡ ok nodes)
  unfolding peers_within
  peers_within-total depth [] h = ([], refl)
  peers_within-total depth ((key, b) ∷ bins) ((n, parsed, e), h) =
      let (rest, q) = peers_within-total depth bins h in
      (
        if leb_ℤ depth n then b.connected_peers ++ rest else rest,
        peers_within-cons depth n parsed key b bins rest e q,
      )

  pub peers_within-HasNumbers :
      (depth : ℤ) (bins : List (List ℕ × Bin A)) (nodes : List A)
      → peers_within depth bins ≡ ok nodes
      → HasNumbers bins
  unfolding peers_within
  peers_within-HasNumbers depth [] nodes h = tt
  peers_within-HasNumbers depth ((key, b) ∷ bins) nodes h =
      let ((n, parsed), e, h1) = >>=-eq-ok (bin_number key) _ h in
      let (rest, q, h2) = >>=-eq-ok (peers_within depth bins) _ h1 in
      ((n, parsed, e), peers_within-HasNumbers depth bins rest q)

module _ {A : Type 0} (equal : A → A → Bool) where
  -- The address equals one of the nodes.
  abbrev pub IsKnown : A → List A → Type 0
  IsKnown a nodes = (n : A) × In n nodes × (equal a n ≡ true)

  -- A bin at the depth or deeper has a connected peer that the address equals.
  abbrev pub IsListed : ℤ → A → List (List ℕ × Bin A) → Type 0
  IsListed depth a bins =
      (key : List ℕ) × (b : Bin A) × (n : ℤ) × (parsed : Bool) × (peer : A) × In (key, b) bins
      × (bin_number key ≡ ok (n, parsed))
      × (depth ≤ℤ n)
      × In peer b.connected_peers
      × (equal a peer ≡ true)

  IsKnown-append_iff : (a : A) (l m : List A) → IsKnown a (l ++ m) ↔ (IsKnown a l ⊎ IsKnown a m)
  IsKnown-append_iff a l m = (
    (λ (p, i, e). elim (In-append_cases p l m i) [ inl j ↦ inl (p, j, e) | inr j ↦ inr (p, j, e) ]),
    (λ k. elim k [
      | inl (p, i, e) ↦ (p, In-append_left p l m i, e)
      | inr (p, i, e) ↦ (p, In-append_right p l m i, e)
    ]),
  )

  IsListed-cons_iff :
      (depth n : ℤ) (parsed : Bool) (key : List ℕ) (b : Bin A) (bins : List (List ℕ × Bin A))
      (a : A)
      → bin_number key ≡ ok (n, parsed)
      → IsListed depth a ((key, b) ∷ bins)
        ↔ (((depth ≤ℤ n) × IsKnown a b.connected_peers) ⊎ IsListed depth a bins)
  IsListed-cons_iff depth n parsed key b bins a e = (
    (λ (k, c, m, r, p, i, q, l, j, s). elim i [
      | inr i' ↦ inr (k, c, m, r, p, i', q, l, j, s)
      | inl t ↦
          let same : m ≡ n = ap (λ x. x.0) (ok-same (sym q ∙ ap (λ x. bin_number x.0) t ∙ e)) in
          inl (subst (λ x. depth ≤ℤ x) same l, (p, subst (λ x. In p x.1.connected_peers) t j, s))
    ]),
    (λ h. elim h [
      | inl (l, (p, j, s)) ↦ (key, b, n, parsed, p, inl refl, e, l, j, s)
      | inr (k, c, m, r, p, i, q, l, j, s) ↦ (k, c, m, r, p, inr i, q, l, j, s)
    ]),
  )

  pub peers_within-IsListed_iff :
      (depth : ℤ) (bins : List (List ℕ × Bin A)) (nodes : List A) (a : A)
      → peers_within depth bins ≡ ok nodes
      → IsKnown a nodes ↔ IsListed depth a bins
  unfolding peers_within
  peers_within-IsListed_iff depth [] nodes a h =
      let e : [] ≡ nodes = ok-same h in rw (← e) ((λ (p, i, q). absurd i), (λ l. absurd l.5))
  peers_within-IsListed_iff depth ((key, b) ∷ bins) nodes a h =
      let ((n, parsed), e, h1) = >>=-eq-ok (bin_number key) _ h in
      let (rest, q, h2) = >>=-eq-ok (peers_within depth bins) _ h1 in
      let (f, g) = peers_within-IsListed_iff depth bins rest a q in
      let (f', g') = IsListed-cons_iff depth n parsed key b bins a e in
      let (s, t) = IsKnown-append_iff a b.connected_peers rest in
      let same = ok-same h2 in
      elim (Bool-cases (leb_ℤ depth n)) [
        | inl l ↦
            let e' : b.connected_peers ++ rest ≡ nodes = rw l at same in
            rw (← e') (
              (λ k. elim (s k) [ inl u ↦ g' (inl (ground arith, u)) | inr u ↦ g' (inr (f u)) ]),
              (λ k. elim (f' k) [ inl (_, u) ↦ t (inl u) | inr u ↦ t (inr (g u)) ]),
            )
        | inr l ↦
            let e' : rest ≡ nodes = rw l at same in
            rw (← e') (
              (λ k. g' (inr (f k))),
              (λ k. elim (f' k) [ inl (d, _) ↦ absurd (ground arith) | inr u ↦ g u ]),
            )
      ]
