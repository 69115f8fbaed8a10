-- ===== src/Group/Members.antt =====
-- What the methods of a node group return, by its map of nodes
-- (pkg/orchestration/k8s/nodegroup.go).
use beekeeper.Common.{
  ◌≡◌, refl, ◌↔◌, inl, inr, true, false, Option, none, some, List, [], ◌∷◌, arith, String, eq_iff,
  In, Bool-cases, ap, sym, ◌∙◌,
}
use beekeeper.Common.Outcome.{Outcome, ok}
use beekeeper.Common.Dict.{Dict, lookup, contains, IsMap}
use beekeeper.Nodes.Cluster.{contains_name}
use beekeeper.Group.Streams.{
  BeeClient, Node, StateError, Message, stopped_nodes, messages, Order, IsArrival, ask,
}
use beekeeper.Group.Arrival.{IsInjective, gather_order}

module _ {Address A : Type 0} (query : BeeClient Address → Option A) (stopped : List String) where
  -- The node `k` of the group is running and answers `o`.
  abbrev pub Answers : Dict (Node Address) → String → Option A → Type 0
  Answers nodes k o =
      (v : Node Address) × In (k, v) nodes
      × (contains_name stopped v.name ≡ false)
      × (query v.client ≡ o)

  messages-In :
      (nodes : Dict (Node Address)) (k : String) (o : Option A)
      → In (k, o) (messages query stopped nodes) ↔ Answers nodes k o
  unfolding messages
  messages-In [] k o = ((λ i. absurd i), (λ (v, i, s, q). i))
  messages-In ((j, w) ∷ nodes) k o =
      let (f, g) = messages-In nodes k o in
      elim (Bool-cases (contains_name stopped w.name)) [
        | inl s ↦
            rw (s, messages)
              (
                (λ i. let (v, l, t, q) = f i in (v, inr l, t, q)),
                (λ (v, l, t, q). elim l [
                  | inl e ↦
                      absurd (stopped_not_running (ap (λ (p : String × Node Address). p.1) e) s t)
                  | inr l' ↦ g (v, l', t, q)
                ]),
              )
        | inr s ↦
            rw (s, messages)
              (
                (λ i. elim i [
                  | inl e ↦ (
                    w,
                    inl (ap (λ (p : String × Option A). (p.0, w)) e),
                    s,
                    sym (ap (λ (p : String × Option A). p.1) e),
                  )
                  | inr i' ↦ let (v, l, t, q) = f i' in (v, inr l, t, q)
                ]),
                (λ (v, l, t, q). elim l [
                  | inl e ↦ inl (
                      pair (ap (λ (p : String × Node Address). p.0) e)
                        (ap (λ (p : String × Node Address). p.1) e) q)
                  | inr l' ↦ inr (g (v, l', t, q))
                ]),
              )
      ]
    where
      stopped_not_running :
          {v w' : Node Address}
          → v ≡ w'
          → contains_name stopped w'.name ≡ true
          → contains_name stopped v.name ≡ false
          → ⊥
      stopped_not_running e s t = let t' = rw e at t in ground arith

      pair :
          {x y : String} {v w' : Node Address} {r : Option A}
          → x ≡ y
          → v ≡ w'
          → query v.client ≡ r
          → ◌≡◌ {A = String × Option A} (x, r) (y, query w'.client)
      pair e f q = rw (← q, e, f) refl

  -- The keys of a map are different, so those of the messages are.
  In-contains :
      (k : String) (v : Node Address) (nodes : Dict (Node Address))
      → In (k, v) nodes
      → contains k nodes ≡ true
  unfolding lookup
  In-contains k v [] i = absurd i
  In-contains k v ((j, w) ∷ nodes) (inl e) =
      let ek : k ≡ j = ap (λ (p : String × Node Address). p.0) e in
      rw ek (ground (arith, eq_iff j j))
  In-contains k v ((j, w) ∷ nodes) (inr i) = ground (arith, In-contains k v nodes i)

  In-unique :
      (k : String) (v w : Node Address) (nodes : Dict (Node Address))
      → IsMap nodes
      → In (k, v) nodes
      → In (k, w) nodes
      → v ≡ w
  In-unique k v w [] d i l = absurd i
  In-unique k v w ((j, x) ∷ nodes) d (inl e) (inl f) =
      ap (λ (p : String × Node Address). p.1) (e ∙ sym f)
  In-unique k v w ((j, x) ∷ nodes) d (inl e) (inr l) =
      let ek : k ≡ j = ap (λ (p : String × Node Address). p.0) e in
      let c = rw ek at (In-contains k w nodes l) in ground arith
  In-unique k v w ((j, x) ∷ nodes) d (inr i) (inl f) =
      let ek : k ≡ j = ap (λ (p : String × Node Address). p.0) f in
      let c = rw ek at (In-contains k v nodes i) in ground arith
  In-unique k v w ((j, x) ∷ nodes) d (inr i) (inr l) = In-unique k v w nodes d.1 i l

  messages-IsInjective :
      (nodes : Dict (Node Address))
      → IsMap nodes
      → IsInjective (λ n. n) (λ (a : A). a) (messages query stopped nodes)
  messages-IsInjective nodes d (j, o) (k, p) i l e =
      let (v, iv, sv, qv) = (messages-In nodes j o).0 i in
      let (w, iw, sw, qw) = (messages-In nodes k p).0 l in
      together j k o p v w e qv qw (In-unique k v w nodes d (rw e at iv) iw)
    where
      together :
          (j' k' : String) (o' p' : Option A) (v w : Node Address)
          → j' ≡ k'
          → query v.client ≡ o'
          → query w.client ≡ p'
          → v ≡ w
          → ◌≡◌ {A = Message A} (j', o') (k', p')
      together j' k' o' p' v w e' qv qw f = rw (e', ← qv, ← qw, f) refl

module _ {Address A : Type 0} (order : Order) (arrival : IsArrival order)
    (stopped : Outcome StateError (List String)) (overlay_text : Option Address → String)
    (query : BeeClient Address → Option A) where
  -- A method that asks the running nodes of a group succeeds exactly when each of them answers, and
  -- returns exactly their answers under their names, in whatever order these arrive; a node that is
  -- stopped is not asked.
  pub ask-Answers :
      (nodes : Dict (Node Address)) (names : List String)
      → IsMap nodes
      → stopped_nodes stopped nodes ≡ ok names
      → (((m : Dict A) × (ask order stopped overlay_text nodes query ≡ ok m))
          ↔ ((k : String) → Answers query names nodes k none → ⊥))
        × ((m : Dict A)
            → ask order stopped overlay_text nodes query ≡ ok m
            → (k : String) (a : A) → (lookup k m ≡ some a) ↔ Answers query names nodes k (some a))
  unfolding ask
  ask-Answers nodes names d h =
      let (f, g) =
        gather_order (λ n. n) (λ (a : A). a) (messages query names nodes)
          (order A (messages query names nodes)) (arrival A (messages query names nodes))
          (messages-IsInjective query names nodes d) in
      rw h (
        (
          (λ done k ans. f.0 done k ((messages-In query names nodes k none).1 ans)),
          (λ no. f.1 (λ k i. no k ((messages-In query names nodes k none).0 i))),
        ),
        (λ m e k a. (
          (λ l.
              let (n, a', i, p, q) = (g m e k a).0 l in
              (messages-In query names nodes k (some a)).0 (rw (← p, ← q) i)),
          (λ ans.
              (g m e k a).1 (k, a, (messages-In query names nodes k (some a)).1 ans, refl, refl)),
        )),
      )
