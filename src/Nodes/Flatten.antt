-- ===== src/Nodes/Flatten.antt =====
-- The `Flatten` methods of pkg/orchestration/k8s/cluster.go lose no node and merge no two.
use beekeeper.Common.{
  ◌≡◌, refl, ◌↔◌, true, false, [], ◌∷◌, ◌++◌, arith, String, str_eq, eq_iff, Bool-cases, inl, inr,
  sym, ap, ◌∙◌,
}
use beekeeper.Common.Outcome.{ok, >>=-eq-ok}
use beekeeper.Common.Dict.{Dict, lookup, contains, insert, IsMap, insert-IsMap, lookup-append}
use beekeeper.Nodes.Cluster.{flatten_row, flatten_rows}

module _ {A : Type 0} where
  -- All entries of the groups, in order.
  abbrev pub entries : Dict (Dict A) → Dict A
  entries [] = []
  entries ((_, row) ∷ rows) = row ++ entries rows

  insert_fresh :
      (n : String) (a : A) (m : Dict A) → contains n m ≡ false → insert n a m ≡ m ++ (n, a) ∷ []
  unfolding insert lookup
  insert_fresh n a [] h = refl
  insert_fresh n a ((k, v) ∷ m) h = ground (arith, insert_fresh n a m, eq_iff k n)

  append_assoc : (x y z : Dict A) → (x ++ y) ++ z ≡ x ++ (y ++ z)
  append_assoc [] y z = refl
  append_assoc (e ∷ x) y z = ap (λ l. e ∷ l) (append_assoc x y z)

  append_nil : (x : Dict A) → x ++ [] ≡ x
  append_nil [] = refl
  append_nil (e ∷ x) = ap (λ l. e ∷ l) (append_nil x)

  -- A key that stands twice.
  contains-append : (n : String) (x y : Dict A) → contains n y ≡ true → contains n (x ++ y) ≡ true
  unfolding lookup
  contains-append n [] y h = h
  contains-append n ((k, v) ∷ x) y h = ground (arith, contains-append n x y)

  twice :
      (n : String) (a : A) (m row : Dict A) → contains n m ≡ true → IsMap (m ++ (n, a) ∷ row) → ⊥
  unfolding lookup
  twice n a [] row h d = ground arith
  twice n a ((k, v) ∷ m) row h d = elim (Bool-cases (str_eq k n)) [
    | inl e ↦ ground (arith, eq_iff k n, contains-append k m ((n, a) ∷ row))
    | inr e ↦ twice n a m row (ground arith) d.1
  ]

  append-IsMap : (x y : Dict A) → IsMap (x ++ y) → IsMap x
  unfolding lookup
  append-IsMap [] y h = tt
  append-IsMap ((k, v) ∷ x) y h = (ground (arith, lookup-append k x y), append-IsMap x y h.1)

module _ (Address Client : Type 0) {A : Type 0} where
  flatten_row-ok_iff :
      (found row m : Dict A)
      → IsMap found
      → (flatten_row {Address = Address} {Client = Client} found row ≡ ok m)
        ↔ (IsMap (found ++ row) × (m ≡ found ++ row))
  unfolding flatten_row
  flatten_row-ok_iff found [] m d =
      rw (append_nil found) ((λ h. (d, ground arith)), (λ (d', e). rw e refl))
  flatten_row-ok_iff found ((n, a) ∷ row) m d = elim (Bool-cases (contains n found)) [
    | inl c ↦
        rw (c, flatten_row) ((λ h. ground arith), (λ (d', e). absurd (twice n a found row c d')))
    | inr c ↦
        let f = insert_fresh n a found c in
        let rec = flatten_row-ok_iff (insert n a found) row m (insert-IsMap n a found d) in
        let rec' = rw (f, append_assoc found ((n, a) ∷ []) row) at rec in
        rw (c, flatten_row, f) rec'
  ]

  flatten_rows-ok_iff :
      (rows : Dict (Dict A)) (found m : Dict A)
      → IsMap found
      → (flatten_rows {Address = Address} {Client = Client} found rows ≡ ok m)
        ↔ (IsMap (found ++ entries rows) × (m ≡ found ++ entries rows))
  unfolding flatten_rows
  flatten_rows-ok_iff [] found m d =
      rw (append_nil found) ((λ h. (d, ground arith)), (λ (d', e). rw e refl))
  flatten_rows-ok_iff ((k, row) ∷ rows) found m d = (
    (λ h.
        let (found', e, f) = >>=-eq-ok (flatten_row found row) _ h in
        let (d1, e1) = (flatten_row-ok_iff found row found' d).0 e in
        let both = (flatten_rows-ok_iff rows found' m (rw e1 d1)).0 f in
        rw (e1, append_assoc found row (entries rows)) at both),
    (λ (d', e').
        let whole : IsMap ((found ++ row) ++ entries rows) =
          rw (append_assoc found row (entries rows)) d' in
        let d1 = append-IsMap (found ++ row) (entries rows) whole in
        let first = (flatten_row-ok_iff found row (found ++ row) d).1 (d1, refl) in
        rw first (
          (flatten_rows-ok_iff rows (found ++ row) m d1).1
            (whole, e' ∙ sym (append_assoc found row (entries rows))))),
  )

  -- The loops of a `Flatten` method succeed exactly when no node's name is in two places of the
  -- groups, and then give all the entries of the groups: none is lost, none replaced.
  pub flatten_rows-eq-ok_iff :
      (rows : Dict (Dict A)) (m : Dict A)
      → (flatten_rows {Address = Address} {Client = Client} [] rows ≡ ok m)
        ↔ (IsMap (entries rows) × (m ≡ entries rows))
  flatten_rows-eq-ok_iff rows m = flatten_rows-ok_iff rows [] m tt
