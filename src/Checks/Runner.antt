-- ===== src/Checks/Runner.antt =====
-- The check runner of pkg/check/runner.go. `config.Checks` and the actions are parameters: whether a
-- check's options can be made, and what its run ends in under its timeout. A name is the code points
-- of its text.
use beekeeper.Common.{
  ℕ, Bool, true, false, not, ◌&&◌, ◌||◌, Option, none, some, List, [], ◌∷◌, if◌then◌else◌, leb,
  ◌==◌, length,
}
use beekeeper.Common.Outcome.{Outcome, ok, err, panic, ◌>>=◌}

abbrev pub Text : Type 0
Text = List ℕ

-- `unicode.IsSpace`
unfoldable pub is_space : ℕ → Bool
is_space c =
    leb 9 c && leb c 13
    || c == 32
    || c == 0x85
    || c == 0xa0
    || c == 0x1680
    || leb 0x2000 c && leb c 0x200a
    || c == 0x2028
    || c == 0x2029
    || c == 0x202f
    || c == 0x205f
    || c == 0x3000

unfoldable pub trim_left : Text → Text
unfolding is_space
trim_left [] = []
trim_left (c ∷ s) = let rest = trim_left s in if is_space c then rest else c ∷ s

unfoldable pub trim_right : Text → Text
unfolding is_space
trim_right [] = []
trim_right (c ∷ s) =
    let rest = trim_right s in
    elim rest [ [] ↦ if is_space c then [] else c ∷ [] | d ∷ t ↦ c ∷ d ∷ t ]

-- `strings.TrimSpace`
unfoldable pub trim_space : Text → Text
unfolding trim_left trim_right
trim_space s = trim_right (trim_left s)

unfoldable pub same : Text → Text → Bool
same [] [] = true
same [] (d ∷ t) = false
same (c ∷ s) [] = false
same (c ∷ s) (d ∷ t) = c == d && same s t

-- The configuration of a check: its type, and an identity for its timeout and options.
pub record Check : Type 0 where
  pub type_name : Text
  pub settings : ℕ

pub record CheckRun : Type 0 where
  pub name : Text
  pub type_name : Text
  pub settings : ℕ

pub data RunnerError (E : Type 0) : Type 0 where
  does_not_exist not_implemented creating_options : Text → RunnerError E
  check_error : E → RunnerError E
  checks_failed : (failed : List (Text × E)) → (total : ℕ) → RunnerError E

abbrev pub CheckResult : Type 0 → Type 0
CheckResult E = Text × Option E

unfoldable pub find_check : Text → List (Text × Check) → Option Check
unfolding same
find_check name [] = none
find_check name ((k, c) ∷ checks) =
    let rest = find_check name checks in if same k name then some c else rest

module _ {E : Type 0} (checks : List (Text × Check)) (is_implemented : Text → Bool)
    (has_options : Check → Bool) where
  unfoldable pub validate_check : Text → Outcome (RunnerError E) CheckRun
  unfolding trim_space find_check
  validate_check name = elim (find_check (trim_space name) checks) [
    | none ↦ err (does_not_exist (trim_space name))
    | some c ↦
        if not (is_implemented c.type_name)
        then err (not_implemented c.type_name)
        else if not (has_options c)
        then err (creating_options (trim_space name))
        else ok (record { name = trim_space name; type_name = c.type_name; settings = c.settings })
  ]

  -- No check runs before all are validated.
  unfoldable pub validate_checks : List Text → Outcome (RunnerError E) (List CheckRun)
  unfolding validate_check
  validate_checks [] = ok []
  validate_checks (name ∷ names) =
      validate_check name >>= λ r. validate_checks names >>= λ rs. ok (r ∷ rs)

module _ {E : Type 0} (run_check : CheckRun → Option E) where
  -- Every validated check is run, whether or not those before it failed.
  unfoldable pub run_checks : List CheckRun → List (CheckResult E)
  run_checks [] = []
  run_checks (r ∷ rs) = (r.name, run_check r) ∷ run_checks rs

-- `hasFailures`
unfoldable pub has_failures : {E : Type 0} → List (CheckResult E) → Bool
has_failures [] = false
has_failures ((_, none) ∷ results) = has_failures results
has_failures ((_, some e) ∷ results) = true

unfoldable pub failures : {E : Type 0} → List (CheckResult E) → List (Text × E)
failures [] = []
failures ((_, none) ∷ results) = failures results
failures ((name, some e) ∷ results) = (name, e) ∷ failures results

-- A single result gives its own error, nil if it has none.
unfoldable pub format_error_report : {E : Type 0} → List (CheckResult E) → Option (RunnerError E)
unfolding failures
format_error_report [] = some (checks_failed [] 0)
format_error_report ((_, none) ∷ []) = none
format_error_report ((_, some e) ∷ []) = some (check_error e)
format_error_report (r ∷ s ∷ results) =
    some (checks_failed (failures (r ∷ s ∷ results)) (length (r ∷ s ∷ results)))

unfoldable pub report : {E : Type 0} → List (CheckResult E) → Outcome (RunnerError E) (Unit {0})
unfolding has_failures format_error_report
report results =
    if has_failures results
    then elim (format_error_report results) [ none ↦ ok tt | some e ↦ err e ]
    else ok tt

module _ {E : Type 0} (checks : List (Text × Check)) (is_implemented : Text → Bool)
    (has_options : Check → Bool) (run_check : CheckRun → Option E) where
  -- The result, and the checks that were run.
  unfoldable pub run_names : List Text → Outcome (RunnerError E) (Unit {0}) × List CheckRun
  unfolding validate_checks run_checks report
  run_names [] = (ok tt, [])
  run_names (name ∷ names) =
      elim (validate_checks {E = E} checks is_implemented has_options (name ∷ names)) [
        | err e ↦ (err e, [])
        | panic ↦ (panic, [])
        | ok rs ↦ (report (run_checks run_check rs), rs)
      ]
