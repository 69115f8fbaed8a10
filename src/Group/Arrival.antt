-- ===== src/Group/Arrival.antt =====
-- The order in which the answers of a node group arrive (pkg/orchestration/k8s/nodegroup.go) has no
-- influence on what its methods return.
use beekeeper.Common.{
  ◌≡◌, refl, ◌↔◌, ◌⊎◌, inl, inr, none, some, List, [], ◌∷◌, arith, String, str_eq, eq_iff, In,
  Bool-cases, ap, sym, ◌∙◌,
}
use beekeeper.Common.Outcome.{ok}
use beekeeper.Common.Dict.{Dict, lookup, insert, lookup-insert}
use beekeeper.Group.Streams.{Message, gather}

module _ {A B : Type 0} (key : String → String) (value : A → B) where
  -- An answer among the messages gives the entry.
  abbrev pub Gives : List (Message A) → String → B → Type 0
  Gives msgs k b = (n : String) × (a : A) × In (n, some a) msgs × (key n ≡ k) × (value a ≡ b)

  -- No two messages have one key.
  abbrev pub IsInjective : List (Message A) → Type 0
  IsInjective msgs = (x y : Message A) → In x msgs → In y msgs → key x.0 ≡ key y.0 → x ≡ y

  gather-Gives :
      (found m : Dict B) (msgs : List (Message A)) (k : String) (b : B)
      → gather key value found msgs ≡ ok m
      → lookup k m ≡ some b
      → Gives msgs k b ⊎ (lookup k found ≡ some b)
  unfolding gather
  gather-Gives found m [] k b h l = inr (ground arith)
  gather-Gives found m ((n, none) ∷ msgs) k b h l = ground arith
  gather-Gives found m ((n, some a) ∷ msgs) k b h l =
      elim (gather-Gives (insert (key n) (value a) found) m msgs k b h l) [
        | inl (n', a', i, p, q) ↦ inl (n', a', inr i, p, q)
        | inr e ↦ elim (Bool-cases (str_eq (key n) k)) [
          | inl s ↦ inl (
            n,
            a,
            inl refl,
            (eq_iff (key n) k).0 s,
            ground (arith, lookup-insert (key n) k (value a) found),
          )
          | inr s ↦ inr (ground (arith, lookup-insert (key n) k (value a) found))
        ]
      ]

  -- An entry that no message changes is there at the end.
  gather_stays :
      (found m : Dict B) (msgs : List (Message A)) (k : String) (b : B)
      → gather key value found msgs ≡ ok m
      → lookup k found ≡ some b
      → ((n : String) (a : A) → In (n, some a) msgs → key n ≡ k → value a ≡ b)
      → lookup k m ≡ some b
  unfolding gather
  gather_stays found m [] k b h l u = ground arith
  gather_stays found m ((n, none) ∷ msgs) k b h l u = ground arith
  gather_stays found m ((n, some a) ∷ msgs) k b h l u =
      gather_stays (insert (key n) (value a) found) m msgs k b h (kept (u n a (inl refl)))
        (λ n' a' i. u n' a' (inr i))
    where
      kept : (key n ≡ k → value a ≡ b) → lookup k (insert (key n) (value a) found) ≡ some b
      kept v = elim (Bool-cases (str_eq (key n) k)) [
        | inl s ↦
            let w = v ((eq_iff (key n) k).0 s) in
            ground (arith, lookup-insert (key n) k (value a) found)
        | inr s ↦ ground (arith, lookup-insert (key n) k (value a) found)
      ]

  gather-lookup :
      (found m : Dict B) (msgs : List (Message A)) (n : String) (a : A)
      → gather key value found msgs ≡ ok m
      → IsInjective msgs
      → In (n, some a) msgs
      → lookup (key n) m ≡ some (value a)
  unfolding gather
  gather-lookup found m [] n a h inj i = absurd i
  gather-lookup found m ((n', none) ∷ msgs) n a h inj i = ground arith
  gather-lookup found m ((n', some a') ∷ msgs) n a h inj (inr i) =
      gather-lookup (insert (key n') (value a') found) m msgs n a h
        (λ x y j l. inj x y (inr j) (inr l)) i
  gather-lookup found m ((n', some a') ∷ msgs) n a h inj (inl e) =
      let en : n ≡ n' = ap (λ (p : Message A). p.0) e in
      let ea : a ≡ a' = same (ap (λ (p : Message A). p.1) e) in
      gather_stays (insert (key n') (value a') found) m msgs (key n) (value a) h
        (rw
          (
            en,
            ea,
            lookup-insert (key n') (key n') (value a') found,
            (eq_iff (key n') (key n')).1 refl,
          )
          refl)
        (λ n2 a2 i p. ap value (
          same (
            ap (λ (p : Message A). p.1)
              (inj (n2, some a2) (n', some a') (inr i) (inl refl) (p ∙ ap key en)))
          ∙ sym ea))
    where
      same : {x y : A} → some x ≡ some y → x ≡ y
      same q = cc

  gather_ok_iff :
      (found : Dict B) (msgs : List (Message A))
      → ((m : Dict B) × (gather key value found msgs ≡ ok m))
        ↔ ((n : String) → In (n, none) msgs → ⊥)
  unfolding gather
  gather_ok_iff found [] = ((λ h n i. i), (λ h. (found, refl)))
  gather_ok_iff found ((n, none) ∷ msgs) =
      ((λ (m, h) n' i. ground arith), (λ h. absurd (h n (inl refl))))
  gather_ok_iff found ((n, some a) ∷ msgs) =
      let (f, g) = gather_ok_iff (insert (key n) (value a) found) msgs in
      (
        (λ h n' i. elim i [
          | inl e ↦ some_not_none (ap (λ (p : Message A). p.1) e)
          | inr j ↦ f h n' j
        ]),
        (λ h. g (λ n' i. h n' (inr i))),
      )
    where
      some_not_none : none ≡ some a → ⊥
      some_not_none e = cc

module _ {A B : Type 0} (key : String → String) (value : A → B) (sent arrived : List (Message A))
    (all_arrive : (m : Message A) → In m arrived ↔ In m sent) where
  -- The messages of a stream, whatever the order in which they arrive, are gathered if and only if
  -- none of them is an error, and if no two have one key then the result holds exactly what the
  -- messages sent give.
  pub gather_order :
      IsInjective key value sent
      → (((m : Dict B) × (gather key value [] arrived ≡ ok m))
          ↔ ((n : String) → In (n, none) sent → ⊥))
        × ((m : Dict B)
            → gather key value [] arrived ≡ ok m
            → (k : String) (b : B) → (lookup k m ≡ some b) ↔ Gives key value sent k b)
  unfolding lookup
  gather_order inj =
      let (f, g) = gather_ok_iff key value [] arrived in
      (
        (
          (λ h n i. f h n ((all_arrive (n, none)).1 i)),
          (λ h. g (λ n i. h n ((all_arrive (n, none)).0 i))),
        ),
        (λ m h k b. (
          (λ l. elim (gather-Gives key value [] m arrived k b h l) [
            | inl (n, a, i, p, q) ↦ (n, a, (all_arrive (n, some a)).0 i, p, q)
            | inr e ↦ absurd cc
          ]),
          (λ (n, a, i, p, q).
              rw (sym p, sym q)
                (gather-lookup key value [] m arrived n a h
                  (λ x y j l. inj x y ((all_arrive x).0 j) ((all_arrive y).0 l))
                  ((all_arrive (n, some a)).1 i))),
        )),
      )
