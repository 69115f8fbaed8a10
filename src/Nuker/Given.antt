-- ===== src/Nuker/Given.antt =====
-- The loop of pkg/nuker/nuker.go over the stateful sets, with the arguments that each is given.
use beekeeper.Common.{
  ℕ, suc, ◌≡◌, refl, ◌≢◌, ◌⊎◌, inl, inr, Bool, false, Option, none, some, List, [], ◌∷◌, ◌++◌,
  String, Bool-cases, ap, sym,
}
use mathlib.Core.Path.{subst}
use mathlib.Core.List.{append_assoc, append-nil}
use beekeeper.Common.Int.{ℤ}
use beekeeper.Common.Outcome.{Outcome, ok, err, panic}
use beekeeper.Common.Dict.{Dict, insert}
use beekeeper.Random.Defs.{Source}
use beekeeper.Random.Unique.{IsDistinct}
use beekeeper.Setup.Names.{numbered}
use beekeeper.Nuker.Replicas.{is_idle-replicas, pods-replicas}
use beekeeper.Nuker.Update.{StatefulSet, NukeError, Kube, update_and_rollback}
use beekeeper.Nuker.Sets.{is_idle}
use beekeeper.Nuker.Run.{RunError, get_pod_names, Progress, run_one, run_each}
use beekeeper.Nuker.Numbers.{IsGiven, get, IsGet, get_args-IsGet, IsGiven-IsDistinct}

module _ {Probe Settings : Type 0} (source : ℕ → Source) (fuel : ℕ) (use_random : Bool)
    (nodes : List String) (status : String → Option ℕ) (kube : String → Kube) (attempts : ℕ)
    (update_args restart_args : List String) (image : String) where
  -- What becomes of the sets one after the other, and the numbers in use: a set without replicas is
  -- left as it is, and any other one is updated and rolled back with the arguments given for its
  -- first pod.
  pub data Assigned (start : Dict (StatefulSet Probe Settings))
      : Dict (StatefulSet Probe Settings)
        → Dict (StatefulSet Probe Settings)
        → List ℤ
        → Type 0 where
    nothing : Assigned start [] start []
    idle :
        {seen sets : Dict (StatefulSet Probe Settings)} {used : List ℤ} (name : String)
        (ss : StatefulSet Probe Settings)
        → (ss.replicas ≡ none) ⊎ (ss.replicas ≡ some 0)
        → Assigned start seen sets used
        → Assigned start (seen ++ (name, ss) ∷ []) sets used
    given :
        {seen sets : Dict (StatefulSet Probe Settings)} {used : List ℤ} (name : String)
        (ss : StatefulSet Probe Settings) (n calls : ℕ) (args : List String) (used' : List ℤ)
        → ss.replicas ≡ some (suc n)
        → IsGiven source fuel use_random nodes status
            (numbered ss.name 0)
            restart_args
            (used, calls)
            args
            used'
        → Assigned start seen sets used
        → Assigned start
            (seen ++ (name, ss) ∷ [])
            (insert name
              (update_and_rollback (kube name) attempts update_args args image ss ss).1
              sets)
            used'

  -- A run over the entries has gone through the first of them, and through all if it is ok.
  abbrev pub IsFair :
      Dict (StatefulSet Probe Settings)
      → Dict (StatefulSet Probe Settings)
      → Dict (StatefulSet Probe Settings)
      → Outcome RunError (Unit {0}) × Progress Probe Settings
      → Type 0
  IsFair start seen entries (r, p) =
      (done rest : Dict (StatefulSet Probe Settings)) × (entries ≡ done ++ rest)
      × Assigned start (seen ++ done) p.sets p.drawn.0
      × IsDistinct p.drawn.0
      × (r ≡ ok tt → rest ≡ [])

  abbrev one :
      String
      → StatefulSet Probe Settings
      → Progress Probe Settings
      → Outcome RunError (Unit {0}) × Progress Probe Settings
  one =
      run_one (get source fuel use_random nodes status) kube attempts update_args restart_args image

  -- A set has been given its arguments, or the run ends before.
  abbrev IsOne :
      String
      → StatefulSet Probe Settings
      → Progress Probe Settings
      → Outcome RunError (Unit {0}) × Progress Probe Settings
      → Type 0
  IsOne name ss p (r, p') =
      ((p'.sets ≡ p.sets) × (p'.drawn.0 ≡ p.drawn.0) × (r ≢ ok tt))
      ⊎ ((first : String) × (others : List String) × (args : List String) × (get_pod_names ss
            ≡ first ∷ others)
          × IsGiven source fuel use_random nodes status first restart_args p.drawn args p'.drawn.0
          × (p'.sets
              ≡ insert name
                  (update_and_rollback (kube name) attempts update_args args image ss ss).1 p.sets))

  run_one-IsOne :
      (name : String) (ss : StatefulSet Probe Settings) (p : Progress Probe Settings)
      → IsDistinct p.drawn.0
      → IsOne name ss p (one name ss p)
  unfolding run_one
  run_one-IsOne name ss p d = by_pods (get_pod_names ss) refl
    where
      Goal : Type 0
      Goal = IsOne name ss p (one name ss p)

      by_update :
          (first : String) (others : List String)
          → get_pod_names ss ≡ first ∷ others
          → (args : List String)
          → ((get source fuel use_random nodes status) first restart_args p.drawn).0 ≡ ok args
          → IsGiven source fuel use_random nodes status first restart_args p.drawn args
              ((get source fuel use_random nodes status) first restart_args p.drawn).1.0
          → (r : Outcome NukeError (Unit {0}))
          → (update_and_rollback (kube name) attempts update_args args image ss ss).0 ≡ r
          → Goal
      by_update first others q args g i (ok v) u =
          rw (run_one, q, g, u) (inr (first, others, args, refl, i, refl))
      by_update first others q args g i (err e) u =
          rw (run_one, q, g, u) (inr (first, others, args, refl, i, refl))
      by_update first others q args g i panic u =
          rw (run_one, q, g, u) (inr (first, others, args, refl, i, refl))

      by_get :
          (first : String) (others : List String)
          → get_pod_names ss ≡ first ∷ others
          → (r : Outcome RunError (List String))
          → ((get source fuel use_random nodes status) first restart_args p.drawn).0 ≡ r
          → IsGet source fuel use_random nodes status first restart_args p.drawn
              (r, ((get source fuel use_random nodes status) first restart_args p.drawn).1)
          → Goal
      by_get first others q (ok args) g i =
          by_update first others q args g i
            (update_and_rollback (kube name) attempts update_args args image ss ss).0 refl
      by_get first others q (err e) g i = rw (run_one, q, g) (inl (refl, i, λ x. cc))
      by_get first others q panic g i = rw (run_one, q, g) (inl (refl, i, λ x. cc))

      by_pods : (pods : List String) → get_pod_names ss ≡ pods → Goal
      by_pods [] q = rw (run_one, q) (inl (refl, refl, λ x. cc))
      by_pods (first ∷ others) q =
          by_get first others q
            ((get source fuel use_random nodes status) first restart_args p.drawn).0 refl
            (get_args-IsGet source fuel use_random nodes status first restart_args p.drawn.0
              p.drawn.1 d)

  -- One entry more has been gone through.
  IsFair-cons :
      (start seen sets : Dict (StatefulSet Probe Settings)) (name : String)
      (ss : StatefulSet Probe Settings)
      (out : Outcome RunError (Unit {0}) × Progress Probe Settings)
      → IsFair start (seen ++ (name, ss) ∷ []) sets out
      → IsFair start seen ((name, ss) ∷ sets) out
  IsFair-cons start seen sets name ss out (done, rest, e, a, d, f) = (
    (name, ss) ∷ done,
    rest,
    ap (λ x. (name, ss) ∷ x) e,
    subst (λ x. Assigned start x out.1.sets out.1.drawn.0)
        (append_assoc seen ((name, ss) ∷ []) done) a,
    d,
    f,
  )

  -- The run has ended with the entry.
  IsFair-last :
      (start seen sets : Dict (StatefulSet Probe Settings)) (name : String)
      (ss : StatefulSet Probe Settings)
      (out : Outcome RunError (Unit {0}) × Progress Probe Settings)
      → Assigned start (seen ++ (name, ss) ∷ []) out.1.sets out.1.drawn.0
      → IsDistinct out.1.drawn.0
      → out.0 ≢ ok tt
      → IsFair start seen ((name, ss) ∷ sets) out
  IsFair-last start seen sets name ss out a d n =
      ((name, ss) ∷ [], sets, refl, a, d, λ q. absurd (n q))

  abbrev each :
      Dict (StatefulSet Probe Settings)
      → Progress Probe Settings
      → Outcome RunError (Unit {0}) × Progress Probe Settings
  each =
      run_each (get source fuel use_random nodes status) kube attempts update_args restart_args
        image

  module _ (start seen : Dict (StatefulSet Probe Settings)) (name : String)
      (ss : StatefulSet Probe Settings) (sets : Dict (StatefulSet Probe Settings))
      (p : Progress Probe Settings) (a : Assigned start seen p.sets p.drawn.0)
      (d : IsDistinct p.drawn.0)
      (others_fair : (next : Progress Probe Settings)
        → Assigned start (seen ++ (name, ss) ∷ []) next.sets next.drawn.0
        → IsDistinct next.drawn.0
        → IsFair start (seen ++ (name, ss) ∷ []) sets (each sets next)) where
    -- With its arguments given, the run goes on or ends.
    run_each-given :
        is_idle ss ≡ false
        → (r : Outcome RunError (Unit {0})) → (one name ss p).0 ≡ r
        → Assigned start (seen ++ (name, ss) ∷ []) (one name ss p).1.sets (one name ss p).1.drawn.0
        → IsDistinct (one name ss p).1.drawn.0
        → IsFair start seen ((name, ss) ∷ sets) (each ((name, ss) ∷ sets) p)
    unfolding run_each
    run_each-given i (ok u) q b e =
        rw (run_each, i, q)
          (IsFair-cons start seen sets name ss (each sets (one name ss p).1)
            (others_fair (one name ss p).1 b e))
    run_each-given i (err x) q b e =
        rw (run_each, i, q)
          (IsFair-last start seen sets name ss (err x, (one name ss p).1) b e (λ z. cc))
    run_each-given i panic q b e =
        rw (run_each, i, q)
          (IsFair-last start seen sets name ss (panic, (one name ss p).1) b e (λ z. cc))

    run_each-refused :
        is_idle ss ≡ false
        → (r : Outcome RunError (Unit {0})) → (one name ss p).0 ≡ r
        → r ≢ ok tt
        → Assigned start seen (one name ss p).1.sets (one name ss p).1.drawn.0
        → IsDistinct (one name ss p).1.drawn.0
        → IsFair start seen ((name, ss) ∷ sets) (each ((name, ss) ∷ sets) p)
    unfolding run_each
    run_each-refused i (ok u) q n b e = absurd (n refl)
    run_each-refused i (err x) q n b e =
        rw (run_each, i, q)
          ([], (name, ss) ∷ sets, refl, rw (append-nil seen) b, e, λ z. absurd (n z))
    run_each-refused i panic q n b e =
        rw (run_each, i, q)
          ([], (name, ss) ∷ sets, refl, rw (append-nil seen) b, e, λ z. absurd (n z))

    run_each-step : IsFair start seen ((name, ss) ∷ sets) (each ((name, ss) ∷ sets) p)
    unfolding run_each
    run_each-step = elim (Bool-cases (is_idle ss)) [
      | inl i ↦
          rw (run_each, i)
            (IsFair-cons start seen sets name ss (each sets p)
              (others_fair p (idle name ss (is_idle-replicas ss i) a) d))
      | inr i ↦ elim (run_one-IsOne name ss p d) [
        | inl (s, u, n) ↦
            run_each-refused i (one name ss p).0 refl n
              (subst (λ x. Assigned start seen x (one name ss p).1.drawn.0) (sym s)
                (subst (λ x. Assigned start seen p.sets x) (sym u) a))
              (subst (λ x. IsDistinct x) (sym u) d)
        | inr (first, others, args, q, g, s) ↦
            run_each-given i (one name ss p).0 refl
              (subst (λ x. Assigned start (seen ++ (name, ss) ∷ []) x (one name ss p).1.drawn.0)
                (sym s)
                (let (n, e, f) = pods-replicas ss first others i q in
                  given name ss n p.drawn.1 args (one name ss p).1.drawn.0 e
                    (subst
                      (λ x.
                        IsGiven source fuel use_random nodes status x restart_args p.drawn args
                          (one name ss p).1.drawn.0)
                      f g)
                    a))
              (IsGiven-IsDistinct source fuel use_random nodes status first restart_args p.drawn
                args (one name ss p).1.drawn.0 d g)
      ]
    ]

  pub run_each-IsFair :
      (start sets seen : Dict (StatefulSet Probe Settings)) (p : Progress Probe Settings)
      → Assigned start seen p.sets p.drawn.0
      → IsDistinct p.drawn.0
      → IsFair start seen sets (each sets p)
  unfolding run_each
  run_each-IsFair start [] seen p a d = ([], [], refl, rw (append-nil seen) a, d, λ z. refl)
  run_each-IsFair start ((name, ss) ∷ sets) seen p a d =
      run_each-step start seen name ss sets p a d
        (run_each-IsFair start sets (seen ++ (name, ss) ∷ []))
