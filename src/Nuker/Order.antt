-- ===== src/Nuker/Order.antt =====
-- The names that `NukeByStatefulSets` of pkg/nuker/nuker.go goes through, in order.
use beekeeper.Common.{
  ◌≡◌, refl, true, false, Option, none, some, List, [], ◌∷◌, ◌++◌, arith, if◌then◌else◌, String,
  str_eq, eq_iff, ◌∙◌,
}
use beekeeper.Common.Outcome.{ok}
use beekeeper.Common.Dict.{Dict, lookup, insert, contains, lookup-insert}
use beekeeper.Nuker.Update.{StatefulSet}
use beekeeper.Nuker.Sets.{Found, found, missing, failed, Collected, collect, occurs}

-- No name is listed twice.
abbrev pub NoRepeat : List String → Type 0
NoRepeat [] = Unit
NoRepeat (n ∷ names) = (occurs n names ≡ false) × NoRepeat names

occurs-append :
    (name n : String) (names : List String)
    → occurs name (names ++ n ∷ []) ≡ (if occurs name names then true else str_eq n name)
occurs-append name n [] = ground arith
occurs-append name n (m ∷ names) = ground (arith, occurs-append name n names)

append-NoRepeat :
    (n : String) (names : List String)
    → occurs n names ≡ false
    → NoRepeat names
    → NoRepeat (names ++ n ∷ [])
append-NoRepeat n [] h r = (refl, tt)
append-NoRepeat n (m ∷ names) h r =
    ground (arith, eq_iff m n, eq_iff n m, occurs-append m n names, append-NoRepeat n names)

module _ {Probe Settings : Type 0} where
  module _ (get : String → Found Probe Settings) where
    -- The names in order are those of the sets, each once.
    abbrev pub IsOrdered : Collected Probe Settings → Type 0
    IsOrdered (sets, ordered) =
        NoRepeat ordered × ((name : String) → occurs name ordered ≡ contains name sets)

    pub collect-IsOrdered :
        (names : List String) (sets : Dict (StatefulSet Probe Settings)) (ordered : List String)
        (out : Collected Probe Settings)
        → IsOrdered (sets, ordered)
        → collect get names (sets, ordered) ≡ ok out
        → IsOrdered out
    unfolding collect
    collect-IsOrdered [] sets ordered out i h = let same : (sets, ordered) ≡ out = cc in rw⁻¹ same i
    collect-IsOrdered (n ∷ names) sets ordered out i h =
        step (λ s o g. collect-IsOrdered names s o out g) (lookup n sets) refl (get n) refl
      where
        step :
            ((s : Dict (StatefulSet Probe Settings)) (o : List String)
              → IsOrdered (s, o)
              → collect get names (s, o) ≡ ok out
              → IsOrdered out)
            → (o : Option (StatefulSet Probe Settings)) → lookup n sets ≡ o
            → (f : Found Probe Settings) → get n ≡ f
            → IsOrdered out
        step rest (some s) e f q = rest sets ordered i (rw (collect, e) at h)
        step rest none e missing q = rest sets ordered i (rw (collect, e, q) at h)
        step rest none e failed q = let h' = rw (collect, e, q) at h in cc
        step rest none e (found ss) q =
            rest (insert n ss sets) (ordered ++ n ∷ [])
              (append-NoRepeat n ordered (i.1 n ∙ rw (contains, e) refl) i.0, longer)
              (rw (collect, e, q) at h)
          where
            longer :
                (name : String) → occurs name (ordered ++ n ∷ []) ≡ contains name (insert n ss sets)
            longer name =
                let known = i.1 name in
                let grown = occurs-append name n ordered in
                let inserted = lookup-insert n name ss sets in ground (arith, eq_iff n name)
