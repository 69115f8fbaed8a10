-- ===== src/Checks/Cashed.antt =====
-- The cashouts that the check of pkg/check/cashout/cashout.go makes.
use beekeeper.Common.{
  ◌≡◌, refl, inl, inr, true, false, Option, none, some, List, [], ◌∷◌, ◌++◌, In, In-append_left,
  In-append_right, String, Bool-cases, ap, sym, ◌∙◌,
}
use mathlib.Core.Path.{subst}
use mathlib.Core.List.{append_assoc, append-nil}
use beekeeper.Common.Int.{ℤ, pos, ltb_ℤ}
use beekeeper.Common.Outcome.{Outcome, ok, ◌>>=◌, >>=-eq-ok}
use beekeeper.Checks.Cashout.{
  CashoutError, cashout_failed, settlements_failed, Settlement, CashoutAction, Cashouts, or_fail,
  cash_out, cash_peer, cash_peers, settlements_of, cash_nodes,
}

-- An answer that is needed was given.
pub answered :
    {A B : Type 0} (o : Option A) (e : CashoutError) (next : A → Outcome CashoutError B) {b : B}
    → (or_fail o e >>= next) ≡ ok b
    → (a : A) × (o ≡ some a) × (next a ≡ ok b)
answered none e next h = cc
answered (some a) e next h = (a, refl, h)

pub ok_injective : {A : Type 0} {a b : A} → ◌≡◌ {A = Outcome CashoutError A} (ok a) (ok b) → a ≡ b
ok_injective e = cc

pub true-ne-false : true ≡ false → ⊥
true-ne-false e = cc

module _ {Addr : Type 0} (cluster : Cashouts Addr) where
  -- The actions grow.
  abbrev Grows : List (CashoutAction Addr) → List (CashoutAction Addr) → Type 0
  Grows before after = (rest : List (CashoutAction Addr)) × (after ≡ before ++ rest)

  Grows-In :
      (before after : List (CashoutAction Addr))
      → Grows before after
      → (a : CashoutAction Addr) → In a before
      → In a after
  Grows-In before after (rest, e) a i = subst (λ l. In a l) (sym e) (In-append_left a before rest i)

  -- What is asked of a peer: nothing if nothing was received, and otherwise, if it has an amount that
  -- is not cashed out, a cashout that the node answered, with its transaction, among the actions.
  abbrev pub IsCashed : String → Settlement → List (CashoutAction Addr) → Type 0
  IsCashed node s actions =
      ltb_ℤ (pos 0) s.received ≡ true
      → (before : List (CashoutAction Addr)) × (peer : Addr) × (amount : ℤ) × (cluster.parse s.peer
          ≡ some peer)
        × (cluster.uncashed before node peer ≡ some amount)
        × (ltb_ℤ (pos 0) amount ≡ true
            → (a : CashoutAction Addr) × In a actions
              × (a.node ≡ node)
              × (a.peer ≡ peer)
              × (a.uncashed_amount ≡ amount)
              × (cluster.balance before node ≡ some a.old_balance)
              × (cluster.cashout before node peer ≡ some a.transaction_hash))

  cash_out-adds :
      (node : String) (peer : Addr) (amount : ℤ) (before after : List (CashoutAction Addr))
      → cash_out cluster node peer amount before ≡ ok after
      → (a : CashoutAction Addr) × (after ≡ before ++ a ∷ [])
        × (a.node ≡ node)
        × (a.peer ≡ peer)
        × (a.uncashed_amount ≡ amount)
        × (cluster.balance before node ≡ some a.old_balance)
        × (cluster.cashout before node peer ≡ some a.transaction_hash)
  unfolding cash_out
  cash_out-adds node peer amount before after h =
      let (old, b, h1) = answered _ _ _ h in
      let (hash, c, h2) =
        answered (cluster.cashout before node peer) (cashout_failed node)
          (λ hash. ok (before ++ action hash old ∷ [])) h1 in
      (action hash old, sym (ok_injective h2), refl, refl, refl, b, c)
    where
      action : String → ℤ → CashoutAction Addr
      action hash old = record {
        node = node;
        peer = peer;
        uncashed_amount = amount;
        transaction_hash = hash;
        old_balance = old;
      }

  cash_peer-IsCashed :
      (node : String) (s : Settlement) (before after : List (CashoutAction Addr))
      → cash_peer cluster node s before ≡ ok after
      → Grows before after × IsCashed node s after
  unfolding cash_peer
  cash_peer-IsCashed node s before after h = elim (Bool-cases (ltb_ℤ (pos 0) s.received)) [
    | inr r ↦
        let h' : ok before ≡ ok after = rw (cash_peer, r) at h in
        let same : before ≡ after = cc in
        (([], sym same ∙ sym (append-nil before)), λ t. absurd (true-ne-false (sym t ∙ r)))
    | inl r ↦
        let (peer, p, h1) = answered _ _ _ (rw (cash_peer, r) at h) in
        let (amount, u, h2) = answered _ _ _ h1 in
        elim (Bool-cases (ltb_ℤ (pos 0) amount)) [
          | inr z ↦
              let h' : ok before ≡ ok after = rw z at h2 in
              let same : before ≡ after = cc in
              (
                ([], sym same ∙ sym (append-nil before)),
                λ _. (before, peer, amount, p, u, λ t. absurd (true-ne-false (sym t ∙ z))),
              )
          | inl z ↦
              let (a, e, n, q, m, b, c) =
                cash_out-adds node peer amount before after (rw z at h2) in
              (
                (a ∷ [], e),
                λ _. (
                  before,
                  peer,
                  amount,
                  p,
                  u,
                  λ _. (
                    a,
                    subst (λ l. In a l) (sym e) (In-append_right a before (a ∷ []) (inl refl)),
                    n,
                    q,
                    m,
                    b,
                    c,
                  ),
                ),
              )
        ]
  ]

  IsCashed-Grows :
      (node : String) (s : Settlement) (before after : List (CashoutAction Addr))
      → Grows before after
      → IsCashed node s before
      → IsCashed node s after
  IsCashed-Grows node s before after g c r =
      let (done, peer, amount, p, u, f) = c r in
      (
        done,
        peer,
        amount,
        p,
        u,
        λ z. let (a, i, n, q, m, b, o) = f z in (a, Grows-In before after g a i, n, q, m, b, o),
      )

  Grows-trans : (l m n : List (CashoutAction Addr)) → Grows l m → Grows m n → Grows l n
  Grows-trans l m n (r, e) (r', e') = (r ++ r', e' ∙ ap (λ x. x ++ r') e ∙ append_assoc l r r')

  cash_peers-IsCashed :
      (node : String) (settlements : List Settlement) (before after : List (CashoutAction Addr))
      → cash_peers cluster node settlements before ≡ ok after
      → Grows before after × ((s : Settlement) → In s settlements → IsCashed node s after)
  unfolding cash_peers
  cash_peers-IsCashed node [] before after h =
      (([], sym (ok_injective h) ∙ sym (append-nil before)), λ s i. absurd i)
  cash_peers-IsCashed node (s ∷ settlements) before after h =
      let (mid, one, rest) =
        >>=-eq-ok (cash_peer cluster node s before) (cash_peers cluster node settlements) h in
      let (g, c) = cash_peer-IsCashed node s before mid one in
      let (g', cs) = cash_peers-IsCashed node settlements mid after rest in
      (
        Grows-trans before mid after g g',
        λ t i. elim i [
          | inl e ↦
              subst (λ x. IsCashed node x after) (sym e) (IsCashed-Grows node s mid after g' c)
          | inr j ↦ cs t j
        ],
      )

  settlements_of-ok :
      (node : String) (actions : List (CashoutAction Addr)) (settlements : List Settlement)
      → settlements_of cluster node actions ≡ ok settlements
      → (cluster.has_client node ≡ true) × (cluster.settlements actions node ≡ some settlements)
  unfolding settlements_of
  settlements_of-ok node actions settlements h = elim (Bool-cases (cluster.has_client node)) [
    | inr c ↦ let h' = rw (settlements_of, c) at h in cc
    | inl c ↦
        let h' = rw (settlements_of, c) at h in
        (c, by_answer (cluster.settlements actions node) refl h')
  ]
    where
      by_answer :
          (o : Option (List Settlement))
          → cluster.settlements actions node ≡ o
          → or_fail o (settlements_failed node) ≡ ok settlements
          → cluster.settlements actions node ≡ some settlements
      by_answer none e q = cc
      by_answer (some l) e q = e ∙ ap some (ok_injective q)

  -- The settlements that a node answers with are cashed.
  abbrev pub IsNodeCashed : String → List (CashoutAction Addr) → Type 0
  IsNodeCashed node actions =
      (before : List (CashoutAction Addr)) × (settlements : List Settlement) × (cluster.has_client
          node
        ≡ true)
      × (cluster.settlements before node ≡ some settlements)
      × ((s : Settlement) → In s settlements → IsCashed node s actions)

  pub cash_nodes-IsNodeCashed :
      (nodes : List String) (before after : List (CashoutAction Addr))
      → cash_nodes cluster nodes before ≡ ok after
      → Grows before after × ((node : String) → In node nodes → IsNodeCashed node after)
  unfolding cash_nodes
  cash_nodes-IsNodeCashed [] before after h =
      (([], sym (ok_injective h) ∙ sym (append-nil before)), λ n i. absurd i)
  cash_nodes-IsNodeCashed (node ∷ nodes) before after h =
      let (settlements, asked, h1) =
        >>=-eq-ok (settlements_of cluster node before)
          (λ ss. cash_peers cluster node ss before >>= λ done. cash_nodes cluster nodes done) h in
      let (mid, one, rest) =
        >>=-eq-ok (cash_peers cluster node settlements before) (cash_nodes cluster nodes) h1 in
      let (g, cs) = cash_peers-IsCashed node settlements before mid one in
      let (g', ns) = cash_nodes-IsNodeCashed nodes mid after rest in
      (
        Grows-trans before mid after g g',
        λ n i. elim i [
          | inr j ↦ ns n j
          | inl e ↦
              subst (λ x. IsNodeCashed x after) (sym e)
                (
                  before,
                  settlements,
                  (settlements_of-ok node before settlements asked).0,
                  (settlements_of-ok node before settlements asked).1,
                  λ s j. IsCashed-Grows node s mid after g' (cs s j),
                )
        ],
      )
