-- ===== src/Checks/Failures.antt =====
-- What the check runner of pkg/check/runner.go runs, and when it fails.
use beekeeper.Common.{
  ◌≡◌, refl, ◌↔◌, ◌⊎◌, inl, inr, ◌≢◌, Bool, true, false, Option, none, some, List, [], ◌∷◌, arith,
  All, In, Bool-cases,
}
use beekeeper.Common.Outcome.{Outcome, ok, err, panic, >>=-eq-ok}
use beekeeper.Checks.Configured.{find_check-In, find_check-none}
use beekeeper.Checks.Runner.{
  Text, Check, CheckRun, RunnerError, trim_space, find_check, validate_check, validate_checks,
  run_checks, has_failures, format_error_report, report, run_names,
}

module _ {E : Type 0} (run_check : CheckRun → Option E) where
  has_failures_iff :
      (rs : List CheckRun)
      → (has_failures (run_checks run_check rs) ≡ false) ↔ All (λ r. run_check r ≡ none) rs
  unfolding has_failures run_checks
  has_failures_iff [] = ((λ h. tt), (λ h. refl))
  has_failures_iff (r ∷ rs) =
      let (f, g) = has_failures_iff rs in
      ((λ h. ground arith), (λ h. let q = g h.1 in ground arith))

  report-ok_iff :
      (rs : List CheckRun)
      → (report (run_checks run_check rs) ≡ ok tt) ↔ All (λ r. run_check r ≡ none) rs
  unfolding report format_error_report run_checks has_failures
  report-ok_iff [] = ((λ h. tt), (λ h. refl))
  report-ok_iff (r ∷ []) = ((λ h. ground arith), (λ h. ground arith))
  report-ok_iff (r ∷ s ∷ rs) =
      let (f, g) = has_failures_iff (r ∷ s ∷ rs) in
      ((λ h. f (ground arith)), (λ h. let q = g h in ground arith))

  module _ (checks : List (Text × Check)) (is_implemented : Text → Bool)
      (has_options : Check → Bool) where
    -- The check that a name stands for.
    abbrev pub IsCheck : Text → CheckRun → Type 0
    IsCheck name r =
        (c : Check) × (find_check (trim_space name) checks ≡ some c)
        × In (trim_space name, c) checks
        × (is_implemented c.type_name ≡ true)
        × (has_options c ≡ true)
        × (r ≡ record { name = trim_space name; type_name = c.type_name; settings = c.settings })

    -- A name that stands for no check that can be run.
    abbrev pub IsNoCheck : Text → Type 0
    IsNoCheck name =
        ((c : Check) → ¬ In (trim_space name, c) checks)
        ⊎ ((c : Check) × In (trim_space name, c) checks
            × ((is_implemented c.type_name ≡ false) ⊎ (has_options c ≡ false)))

    abbrev pub AreChecks : List Text → List CheckRun → Type 0
    AreChecks [] [] = Unit
    AreChecks [] (r ∷ rs) = ⊥
    AreChecks (name ∷ names) [] = ⊥
    AreChecks (name ∷ names) (r ∷ rs) = IsCheck name r × AreChecks names rs

    validate_check-IsCheck :
        (name : Text) (r : CheckRun)
        → validate_check {E = E} checks is_implemented has_options name ≡ ok r
        → IsCheck name r
    unfolding validate_check
    validate_check-IsCheck name r h = found (find_check (trim_space name) checks) refl
      where
        found : (o : Option Check) → find_check (trim_space name) checks ≡ o → IsCheck name r
        found none e = ground arith
        found (some c) e = (
          c,
          e,
          find_check-In (trim_space name) checks c e,
          ground arith,
          ground arith,
          ground arith,
        )

    -- What a name is validated to, from what is found for it.
    validate_check-IsNoCheck :
        (name : Text)
        → ((r : CheckRun) → validate_check {E = E} checks is_implemented has_options name ≢ ok r)
        → IsNoCheck name
    unfolding validate_check
    validate_check-IsNoCheck name h = found (find_check (trim_space name) checks) refl
      where
        found : (o : Option Check) → find_check (trim_space name) checks ≡ o → IsNoCheck name
        found none e = inl (find_check-none (trim_space name) checks e)
        found (some c) e = elim (Bool-cases (is_implemented c.type_name)) [
          | inr i ↦ inr (c, find_check-In (trim_space name) checks c e, inl i)
          | inl i ↦ elim (Bool-cases (has_options c)) [
            | inr o ↦ inr (c, find_check-In (trim_space name) checks c e, inr o)
            | inl o ↦ absurd (
                h
                  (record {
                    name = trim_space name;
                    type_name = c.type_name;
                    settings = c.settings;
                  })
                  (rw (validate_check, e, i, o) refl))
          ]
        ]

    validate_checks-IsNoCheck :
        (names : List Text)
        → ((rs : List CheckRun)
            → validate_checks {E = E} checks is_implemented has_options names ≢ ok rs)
        → (name : Text) × In name names × IsNoCheck name
    unfolding validate_checks
    validate_checks-IsNoCheck [] h = absurd (h [] refl)
    validate_checks-IsNoCheck (name ∷ names) h =
        first (validate_check {E = E} checks is_implemented has_options name) refl
          (validate_checks-IsNoCheck names)
      where
        Validated : Type 0
        Validated = (name' : Text) × In name' (name ∷ names) × IsNoCheck name'

        others :
            (r : CheckRun)
            → validate_check {E = E} checks is_implemented has_options name ≡ ok r
            → (v : Outcome (RunnerError E) (List CheckRun))
            → validate_checks {E = E} checks is_implemented has_options names ≡ v
            → (((rs : List CheckRun)
                  → validate_checks {E = E} checks is_implemented has_options names ≢ ok rs)
                → (name' : Text) × In name' names × IsNoCheck name')
            → Validated
        others r e (ok rs) q rest = absurd (h (r ∷ rs) (rw (validate_checks, e, q) refl))
        others r e (err x) q rest = let (n, i, bad) = rest (λ rs p. cc) in (n, inr i, bad)
        others r e panic q rest = let (n, i, bad) = rest (λ rs p. cc) in (n, inr i, bad)

        first :
            (v : Outcome (RunnerError E) CheckRun)
            → validate_check {E = E} checks is_implemented has_options name ≡ v
            → (((rs : List CheckRun)
                  → validate_checks {E = E} checks is_implemented has_options names ≢ ok rs)
                → (name' : Text) × In name' names × IsNoCheck name')
            → Validated
        first (ok r) e rest =
            others r e (validate_checks {E = E} checks is_implemented has_options names) refl rest
        first (err x) e rest = (name, inl refl, validate_check-IsNoCheck name (λ r p. cc))
        first panic e rest = (name, inl refl, validate_check-IsNoCheck name (λ r p. cc))

    validate_checks-AreChecks :
        (names : List Text) (rs : List CheckRun)
        → validate_checks {E = E} checks is_implemented has_options names ≡ ok rs
        → AreChecks names rs
    unfolding validate_checks
    validate_checks-AreChecks [] [] h = tt
    validate_checks-AreChecks [] (r ∷ rs) h = cc
    validate_checks-AreChecks (name ∷ names) rs h =
        let (r, e, h1) =
          >>=-eq-ok (validate_check {E = E} checks is_implemented has_options name) _ h in
        let (rest, f, h2) =
          >>=-eq-ok (validate_checks {E = E} checks is_implemented has_options names) _ h1 in
        joined r rest rs (validate_check-IsCheck name r e) (validate_checks-AreChecks names rest f)
          h2
      where
        joined :
            (r : CheckRun) (rest rs' : List CheckRun)
            → IsCheck name r
            → AreChecks names rest
            → ◌≡◌ {A = Outcome (RunnerError E) (List CheckRun)} (ok (r ∷ rest)) (ok rs')
            → AreChecks (name ∷ names) rs'
        joined r rest [] i a q = cc
        joined r rest (r' ∷ rest') i a q =
            let e : r ≡ r' = cc in let f : rest ≡ rest' = cc in (rw (← e) i, rw (← f) a)

    -- A run of the runner either stops before any check, with an error, and one of the names, trimmed,
    -- is not configured, or its check is not implemented or its options cannot be made; or it runs the check of every name, in order, whatever the earlier ones end
    -- in, and succeeds exactly when none of them fails.
    pub run_names-AreChecks :
        (names : List Text)
        → let (r, ran) = run_names checks is_implemented has_options run_check names in
          ((ran ≡ []) × (r ≢ ok tt) × (name : Text) × In name names × IsNoCheck name)
          ⊎ (AreChecks names ran × ((r ≡ ok tt) ↔ All (λ c. run_check c ≡ none) ran))
    unfolding run_names
    run_names-AreChecks [] = inr (tt, ((λ h. tt), (λ h. refl)))
    run_names-AreChecks (name ∷ names) =
        validated (validate_checks {E = E} checks is_implemented has_options (name ∷ names)) refl
      where
        validated :
            (v : Outcome (RunnerError E) (List CheckRun))
            → validate_checks {E = E} checks is_implemented has_options (name ∷ names) ≡ v
            → let (r, ran) = run_names checks is_implemented has_options run_check (name ∷ names) in
              ((ran ≡ [])
                × (r ≢ ok tt)
                × (name' : Text) × In name' (name ∷ names)
                × IsNoCheck name')
              ⊎ (AreChecks (name ∷ names) ran × ((r ≡ ok tt) ↔ All (λ c. run_check c ≡ none) ran))
        validated (ok rs) e = inr (
          rw (e, run_names) (validate_checks-AreChecks (name ∷ names) rs e),
          rw (e, run_names) (report-ok_iff rs),
        )
        validated (err x) e =
            let failed = validate_checks-IsNoCheck (name ∷ names) (λ rs p. cc) in
            inl (rw (e, run_names) refl, rw (e, run_names) (λ q. cc), failed.0, failed.1, failed.2)
        validated panic e =
            let failed = validate_checks-IsNoCheck (name ∷ names) (λ rs p. cc) in
            inl (rw (e, run_names) refl, rw (e, run_names) (λ q. cc), failed.0, failed.1, failed.2)
