-- ===== src/Config/Sound.antt =====
-- What `mergeParent` returns is what the profile stands for (pkg/config/config.go).
use beekeeper.Common.{
  ℕ, zero, suc, ◌≡◌, refl, ◌≢◌, inl, inr, false, none, some, List, [], ◌∷◌, arith, In, String,
  str_eq, eq_iff, Bool-cases, Option-cases, sym,
}
use mathlib.Core.Path.{subst}
use beekeeper.Common.Outcome.{Outcome, ok, err, panic}
use beekeeper.Common.Dict.{Dict, lookup, insert, lookup-insert}
use beekeeper.Config.Profiles.{
  Profile, MergeError, inherit, is_visited, unvisit, Merging, finish, merge_step, merge_parent,
  merge_names,
}
use beekeeper.Config.Resolve.{
  Resolves, root, child, Resolves-unique, IsSound, Extends, IsSound-insert,
}

module _ {V : Type 0} (configs : Dict (Profile V)) where
  abbrev pub Caller : Type 0
  Caller = String → Merging V → Outcome MergeError (Profile V × Merging V)

  -- How a successful step went: it finds the value, or it is a root's, or the parent's call succeeds.
  pub data Stepped (parent : Caller) (name : String) (s : Merging V) (c : Profile V)
      (s' : Merging V) : Type 0 where
    found : lookup name s.merged ≡ some c → s' ≡ s → Stepped parent name s c s'
    at_root :
        lookup name s.merged ≡ none
        → is_visited name s.visited ≡ false
        → lookup name configs ≡ some c
        → c.parent_name ≡ ""
        → s' ≡ record { merged = insert name c s.merged; visited = unvisit name (name ∷ s.visited) }
        → Stepped parent name s c s'
    at_child :
        (v p : Profile V) (t : Merging V)
        → lookup name s.merged ≡ none
        → is_visited name s.visited ≡ false
        → lookup name configs ≡ some v
        → v.parent_name ≢ ""
        → parent v.parent_name (record s { visited = name ∷ s.visited }) ≡ ok (p, t)
        → c ≡ inherit p v
        → s' ≡ record { merged = insert name c t.merged; visited = unvisit name t.visited }
        → Stepped parent name s c s'

  child_step :
      (parent : Caller) (name : String) (s : Merging V) (v : Profile V)
      (r : Outcome MergeError (Profile V × Merging V)) {c : Profile V} {s' : Merging V}
      → lookup name s.merged ≡ none
      → is_visited name s.visited ≡ false
      → lookup name configs ≡ some v
      → v.parent_name ≢ ""
      → parent v.parent_name (record s { visited = name ∷ s.visited }) ≡ r
      → (elim r [
        | ok (p, s'') ↦ finish configs name (inherit p v) s''
        | err e ↦ err e
        | panic ↦ panic
      ])
        ≡ ok (c, s')
      → Stepped parent name s c s'
  unfolding finish
  child_step parent name s v (ok (p, t)) f nv l ne e h = at_child v p t f nv l ne e (cc) (cc)
  child_step parent name s v (err x) f nv l ne e h = cc
  child_step parent name s v panic f nv l ne e h = cc

  pub merge_step-Stepped :
      (parent : Caller) (name : String) (s : Merging V) {c : Profile V} {s' : Merging V}
      → merge_step configs parent name s ≡ ok (c, s')
      → Stepped parent name s c s'
  unfolding merge_step finish
  merge_step-Stepped parent name s {c} h = elim (Option-cases (lookup name s.merged)) [
    | inr (d, e) ↦ let h' = rw (e, merge_step) at h in found (cc) (cc)
    | inl f ↦ elim (Bool-cases (is_visited name s.visited)) [
      | inl e ↦ let h' = rw (f, e, merge_step) at h in cc
      | inr nv ↦ elim (Option-cases (lookup name configs)) [
        | inl e ↦ let h' = rw (f, nv, e, merge_step) at h in cc
        | inr (v, l) ↦ elim (Bool-cases (str_eq v.parent_name "")) [
          | inl e ↦
              let h' = rw (f, nv, l, e, merge_step) at h in
              let q : v ≡ c = cc in
              at_root f nv (cc)
                (subst (λ (x : Profile V). x.parent_name ≡ "") q ((eq_iff v.parent_name "").0 e))
                (cc)
          | inr e ↦
              child_step parent name s v _ f nv l (λ r. ground (arith, eq_iff v.parent_name ""))
                refl (rw (f, nv, l, e, merge_step) at h)
        ]
      ]
    ]
  ]

  -- What a successful call has done.
  pub record Merged (name : String) (s : Merging V) (c : Profile V) (s' : Merging V) : Type 0 where
    pub steps : ℕ
    pub resolved : Resolves configs steps name c
    pub sound : IsSound configs s'.merged
    pub present : lookup name s'.merged ≡ some c
    pub extends : Extends configs s.merged s'.merged
    pub restored : s'.visited ≡ s.visited

  unvisit-absent :
      (name : String) (xs : List String) → is_visited name xs ≡ false → unvisit name xs ≡ xs
  unfolding is_visited unvisit
  unvisit-absent name [] h = refl
  unvisit-absent name (x ∷ xs) h = ground (arith, unvisit-absent name xs)

  unvisit-cons :
      (name : String) (xs : List String)
      → is_visited name xs ≡ false
      → unvisit name (name ∷ xs) ≡ xs
  unfolding unvisit
  unvisit-cons name xs h = ground (arith, eq_iff name name, unvisit-absent name xs h)

  finish-Merged :
      (name : String) (c : Profile V) (s t : Merging V) (n : ℕ)
      → Resolves configs n name c
      → IsSound configs t.merged
      → Extends configs s.merged t.merged
      → is_visited name s.visited ≡ false
      → t.visited ≡ name ∷ s.visited
      → Merged name s c
          (record { merged = insert name c t.merged; visited = unvisit name t.visited })
  finish-Merged name c s t n res sound ext nv e = record {
    steps = n;
    resolved = res;
    sound = IsSound-insert configs name c t.merged n sound res;
    present = ground (arith, lookup-insert name name c t.merged, eq_iff name name);
    extends = λ x d l. elim (Bool-cases (str_eq name x)) [
      | inl same ↦
          let (m, res') = sound x d (ext x d l) in
          let res'' = subst (λ y. Resolves configs m y d) (sym ((eq_iff name x).0 same)) res' in
          ground (arith, lookup-insert name x c t.merged, (Resolves-unique configs res res'').1)
      | inr other ↦ ground (arith, lookup-insert name x c t.merged, ext x d l)
    ];
    restored = rw e (unvisit-cons name s.visited nv);
  }

  abbrev pub IsRight : Caller → Type 0
  IsRight f =
      (name : String) (s : Merging V) (c : Profile V) (s' : Merging V)
      → IsSound configs s.merged
      → f name s ≡ ok (c, s')
      → Merged name s c s'

  Stepped-Merged :
      (parent : Caller) (name : String) (s : Merging V) (c : Profile V) (s' : Merging V)
      → IsRight parent
      → IsSound configs s.merged
      → Stepped parent name s c s'
      → Merged name s c s'
  Stepped-Merged parent name s c s' right sound (found l e) = rw e (record {
    steps = (sound name c l).0;
    resolved = (sound name c l).1;
    sound = sound;
    present = l;
    extends = λ x d k. k;
    restored = refl;
  })
  Stepped-Merged parent name s c s' right sound (at_root f nv l r e) = rw e (
      finish-Merged name c s (record s { visited = name ∷ s.visited }) 0 (root name c l r) sound
        (λ x d k. k) nv refl)
  Stepped-Merged parent name s c s' right sound (at_child v p t f nv l ne call ec e) =
      let m = right v.parent_name (record s { visited = name ∷ s.visited }) p t sound call in
      rw (e, ec)
        (finish-Merged name (inherit p v) s t (suc m.steps) (child m.steps name v p l ne m.resolved)
          m.sound m.extends nv m.restored)

  pub merge_parent-Merged : (fuel : ℕ) → IsRight (merge_parent configs fuel)
  unfolding merge_parent
  merge_parent-Merged zero name s c s' sound h = cc
  merge_parent-Merged (suc fuel) name s c s' sound h =
      Stepped-Merged (merge_parent configs fuel) name s c s' (merge_parent-Merged fuel) sound
        (merge_step-Stepped (merge_parent configs fuel) name s h)

  -- The loop over the names: what is merged stays right, and every name is there in the end.
  pub record AllMerged (names : List String) (s s' : Merging V) : Type 0 where
    pub sound : IsSound configs s'.merged
    pub present :
        (name : String) → In name names → (c : Profile V) × (lookup name s'.merged ≡ some c)
    pub extends : Extends configs s.merged s'.merged

  names_step :
      (fuel : ℕ) (name : String) (names : List String) (s s' : Merging V)
      → IsSound configs s.merged
      → (rest : (t : Merging V)
          → IsSound configs t.merged
          → merge_names configs fuel names t ≡ ok s'
          → AllMerged names t s')
      → (r : Outcome MergeError (Profile V × Merging V)) → merge_parent configs fuel name s ≡ r
      → (elim r [ ok (_, t) ↦ merge_names configs fuel names t | err e ↦ err e | panic ↦ panic ])
        ≡ ok s'
      → AllMerged (name ∷ names) s s'
  names_step fuel name names s s' sound rest (ok (c, t)) e k =
      let m = merge_parent-Merged fuel name s c t sound e in
      let after = rest t m.sound k in
      record {
        sound = after.sound;
        present = λ x i. elim i [
          | inl same ↦ (c, after.extends x c (rw same m.present))
          | inr later ↦ after.present x later
        ];
        extends = λ x d k'. after.extends x d (m.extends x d k');
      }
  names_step fuel name names s s' sound rest (err x) e k = cc
  names_step fuel name names s s' sound rest panic e k = cc

  pub merge_names-AllMerged :
      (fuel : ℕ) (names : List String) (s s' : Merging V)
      → IsSound configs s.merged
      → merge_names configs fuel names s ≡ ok s'
      → AllMerged names s s'
  unfolding merge_names
  merge_names-AllMerged fuel [] s s' sound h =
      let e : s ≡ s' = cc in
      rw (← e) (record { sound = sound; present = λ name m. elim m [ ]; extends = λ x d k. k })
  merge_names-AllMerged fuel (name ∷ names) s s' sound h =
      names_step fuel name names s s' sound (λ t. merge_names-AllMerged fuel names t s') _ refl h
