-- ===== src/Examples/Cluster.antt =====
-- Runs of the checks (pkg/check) and of the searches over the nodes of a cluster.
use beekeeper.Common.{
  ℕ, ◌+◌, ◌-◌, ◌≤◌, ◌≡◌, refl, ◌↔◌, ◌⊎◌, Bool, true, false, [], ◌∷◌, inl, inr, ◌==◌, String, All,
}
use beekeeper.Common.Int.{ℤ, pos, negsuc, ◌+ℤ◌, wrap64, ◌*ℤ◌}
use beekeeper.Common.Outcome.{Outcome, ok, err}
use beekeeper.Common.Dict.{Dict, lookup}
use beekeeper.Checks.Accounting.{
  Table, entry, Account, SentReceived, no_account, validate_balances, validate_settlements,
  settlements_have_happened,
}
use beekeeper.Checks.Symmetry.{HasEntry, IsWithin, validate_settlements-ok_iff}
use beekeeper.Checks.Settled.{Waited, World, round, Seen, Changed, round-IsSettled}
use beekeeper.Checks.Topology.{
  Bin, Topology, Topologies, all_overlays, check_kademlia, check_kademlia_d,
}
use beekeeper.Checks.Depth.{IsConnected, check_kademlia_d-ok_iff}
use beekeeper.Nodes.Closest.{ClosestError, not_found, closest_node, closest_node_from_map}
use beekeeper.Nodes.Nearest.{sign, Compares}
use beekeeper.Nodes.Named.{IsCandidate, HasAddresses, closest_node_from_map-nearest}

abbrev balanced : Table ℤ
balanced = ("a", ("b", pos 3) ∷ []) ∷ ("b", ("a", negsuc 2) ∷ []) ∷ []

abbrev skewed : Table ℤ
skewed = ("a", ("b", pos 3) ∷ []) ∷ []

balanced_run : validate_balances balanced ≡ ok tt
unfolding validate_balances wrap64 ◌+ℤ◌ lookup
balanced_run = refl

abbrev account : ℤ → Account
account b = record {
  balance = b;
  current_threshold_received = pos 10;
  current_threshold_given = pos 10;
}

abbrev accounts : Table Account
accounts = ("a", ("b", account (pos 3)) ∷ []) ∷ ("b", ("a", account (negsuc 2)) ∷ []) ∷ []

abbrev settled : ℤ → Table SentReceived
settled n =
    ("a", ("b", record { received = n; sent = pos 0 }) ∷ [])
    ∷ ("b", ("a", record { received = pos 0; sent = n }) ∷ [])
    ∷ []

validate_settlements-ok_iff_example :
    ((validate_settlements accounts (settled (pos 1))).0 ≡ ok tt) ↔ (
      (node peer : String) (a : Account)
      → HasEntry accounts node peer a
      → IsWithin a × (wrap64 (a.balance +ℤ (entry no_account accounts peer node).balance) ≡ pos 0))
validate_settlements-ok_iff_example = validate_settlements-ok_iff accounts (settled (pos 1))

-- The settlements change with the download.
abbrev world : World
world = record {
  upload = λ i. ok tt;
  download = λ i. ok tt;
  after_upload = λ i t. ok (accounts, settled (pos 1));
  after_download = λ i t. ok (accounts, settled (pos 2));
  initial = ok (accounts, settled (pos 1));
}

abbrev waited : Waited
waited = record { settlements = settled (pos 2); happened = true; valid = true }

round_run : round world true 0 (settled (pos 1)) ≡ ok waited
unfolding round validate_settlements wrap64 ◌*ℤ◌ ◌+ℤ◌ lookup settlements_have_happened
round_run = refl

round-IsSettled_example :
    (middle : Table SentReceived) × Seen (λ t. ok (accounts, settled (pos 1))) 0 7 middle
    × Seen (λ t. ok (accounts, settled (pos 2))) 0 7 (settled (pos 2))
    × (true ≡ true
        → Changed (λ t. ok (accounts, settled (pos 1))) (settled (pos 1)) 0 7
          ⊎ Changed (λ t. ok (accounts, settled (pos 2))) middle 0 7)
round-IsSettled_example = round-IsSettled world true 0 (settled (pos 1)) waited round_run

-- Two nodes that know each other, at proximity 1 and depth 1.
abbrev bin : ℕ → Bin ℕ
bin peer = record {
  population = pos 1;
  connected = pos 1;
  disconnected_peers = [];
  connected_peers = peer ∷ [];
}

abbrev topology : ℕ → ℕ → Topology ℕ
topology overlay peer = record {
  overlay = overlay;
  depth = pos 1;
  bins = (b'b' ∷ b'_' ∷ b'1' ∷ [], bin peer) ∷ [];
}

abbrev topologies : Topologies ℕ
topologies = ("bee", ("bee-0", topology 4 5) ∷ ("bee-1", topology 5 4) ∷ []) ∷ []

kademlia_run : check_kademlia topologies ≡ ok tt
unfolding check_kademlia
kademlia_run = refl

abbrev equal : ℕ → ℕ → Bool
equal a b = a == b

abbrev proximity : ℕ → ℕ → ℕ
proximity a b = 1

kademlia_d_run : check_kademlia_d equal proximity topologies ≡ ok false
unfolding check_kademlia_d
kademlia_d_run = refl

check_kademlia_d-ok_iff_example :
    (check_kademlia_d equal proximity topologies ≡ ok false)
    ↔ All (λ g. All (IsConnected equal proximity (all_overlays topologies)) g.1) topologies
check_kademlia_d-ok_iff_example = check_kademlia_d-ok_iff equal proximity topologies

abbrev rows : Dict (Dict ℕ)
rows = ("bee", ("bee-0", 4) ∷ []) ∷ ("light", ("light-0", 5) ∷ []) ∷ []

-- Addresses on a line.
abbrev distance : ℕ → ℕ → ℕ
distance a b = (a - b) + (b - a)

abbrev distance_cmp : ℕ → ℕ → ℕ → Outcome ClosestError ℤ
distance_cmp x a b = ok (sign (distance x a) (distance x b))

compares : Compares distance_cmp distance
compares x a b = refl

closest_run : closest_node distance_cmp 5 (9 ∷ 4 ∷ 6 ∷ []) ≡ ok 4
unfolding closest_node
closest_run = refl

abbrev named : Dict ℕ
named = ("a", 9) ∷ ("b", 5) ∷ ("c", 4) ∷ []

abbrev is_zero : ℕ → Bool
is_zero a = a == 0

addresses : HasAddresses distance_cmp distance compares equal is_zero 5 0 (5 ∷ []) named
addresses e (inl p) = rw p refl
addresses e (inr (inl p)) = rw p refl
addresses e (inr (inr (inl p))) = rw p refl
addresses e (inr (inr (inr p))) = absurd p

named_run : closest_node_from_map distance_cmp equal is_zero 5 0 named (5 ∷ []) ≡ ok ("c", 4)
unfolding closest_node_from_map
named_run = refl

closest_node_from_map-nearest_example :
    ((f : String × ℕ) × (closest_node_from_map distance_cmp equal is_zero 5 0 named (5 ∷ []) ≡ ok f)
      × IsCandidate distance_cmp distance compares equal is_zero 5 0 (5 ∷ []) named f
      × ((g : String × ℕ)
          → IsCandidate distance_cmp distance compares equal is_zero 5 0 (5 ∷ []) named g
          → distance 5 f.1 ≤ distance 5 g.1))
    ⊎ ((closest_node_from_map distance_cmp equal is_zero 5 0 named (5 ∷ []) ≡ err not_found)
        × ((g : String × ℕ)
            → IsCandidate distance_cmp distance compares equal is_zero 5 0 (5 ∷ []) named g
            → ⊥))
closest_node_from_map-nearest_example =
    closest_node_from_map-nearest distance_cmp distance compares equal is_zero 5 0 (5 ∷ []) named
      refl addresses
