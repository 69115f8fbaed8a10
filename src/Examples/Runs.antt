-- ===== src/Examples/Runs.antt =====
-- Runs of the check runner (pkg/check/runner.go) and of the full connectivity check
-- (pkg/check/fullconnectivity/fullconnectivity.go).
use beekeeper.Common.{
  ℕ, ◌≡◌, refl, ◌≢◌, ◌↔◌, ◌⊎◌, Bool, true, Option, none, some, List, [], ◌∷◌, if◌then◌else◌, ◌==◌,
  All, In,
}
use beekeeper.Common.Int.{pos, ◌-ℤ◌}
use beekeeper.Common.Outcome.{ok, err}
use beekeeper.Checks.Runner.{Text, Check, CheckRun, checks_failed, run_names}
use beekeeper.Checks.Failures.{IsNoCheck, AreChecks, run_names-AreChecks}
use beekeeper.Checks.Connectivity.{ByGroup, Answers, peers_of, run_connectivity}
use beekeeper.Checks.Connected.{IsConnectedTo, IsFullyConnected, run_connectivity-ok_iff}

abbrev checks : List (Text × Check)
checks =
    (b'p' ∷ [], record { type_name = b'p' ∷ []; settings = 0 })
    ∷ (b'q' ∷ [], record { type_name = b'q' ∷ []; settings = 1 })
    ∷ []

abbrev implemented : Text → Bool
implemented t = true

abbrev has_options : Check → Bool
has_options c = true

-- The check with settings 0 fails.
abbrev run_check : CheckRun → Option ℕ
run_check r = if r.settings == 0 then some 7 else none

abbrev names : List Text
names = (b' ' ∷ b'p' ∷ []) ∷ (b'q' ∷ b' ' ∷ []) ∷ []

-- The second check runs although the first fails.
names_run : run_names checks implemented has_options run_check names ≡ (
  err (checks_failed ((b'p' ∷ [], 7) ∷ []) 2),
  record { name = b'p' ∷ []; type_name = b'p' ∷ []; settings = 0 }
      ∷ record { name = b'q' ∷ []; type_name = b'q' ∷ []; settings = 1 }
      ∷ [],
)
unfolding run_names
names_run = refl

run_names-AreChecks_example :
    let (r, ran) = run_names checks implemented has_options run_check names in
    ((ran ≡ [])
      × (r ≢ ok tt)
      × (name : Text) × In name names
      × IsNoCheck run_check checks implemented has_options name)
    ⊎ (AreChecks run_check checks implemented has_options names ran
        × ((r ≡ ok tt) ↔ All (λ c. run_check c ≡ none) ran))
run_names-AreChecks_example = run_names-AreChecks run_check checks implemented has_options names

abbrev equal : ℕ → ℕ → Bool
equal a b = a == b

abbrev all_overlays : ByGroup ℕ
all_overlays = ("bee", ("bee-0", 4) ∷ ("bee-1", 5) ∷ []) ∷ []

abbrev all_peers : ByGroup (List ℕ)
all_peers = ("bee", ("bee-0", 5 ∷ []) ∷ ("bee-1", 4 ∷ []) ∷ []) ∷ []

abbrev cluster : Answers ℕ
cluster = record {
  overlays = λ skip. ok all_overlays;
  peers = λ skip. ok all_peers;
  full_node_names = "bee-0" ∷ "bee-1" ∷ [];
  node_names = "bee-0" ∷ "bee-1" ∷ [];
}

connectivity_run : run_connectivity equal cluster ("light" ∷ []) [] [] ≡ ok tt
unfolding run_connectivity ◌-ℤ◌
connectivity_run = refl

run_connectivity-ok_iff_example : (run_connectivity equal cluster ("light" ∷ []) [] [] ≡ ok tt) ↔ (
    All (IsFullyConnected equal cluster [] all_overlays all_peers) all_overlays
    × All
        (λ g. All (λ n. IsConnectedTo equal all_overlays (pos 1) (peers_of all_peers g.0 n.0)) g.1)
        all_overlays)
run_connectivity-ok_iff_example =
    run_connectivity-ok_iff equal cluster ("light" ∷ []) [] [] all_overlays all_overlays
      all_overlays all_peers all_peers refl refl refl refl refl
