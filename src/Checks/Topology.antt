-- ===== src/Checks/Topology.antt =====
-- The kademlia check of pkg/check/kademlia/kademlia.go. An address is of the package swarm, which
-- gives `Equal` and `Proximity`: parameters. A key of the bins is the bytes of its text.
use beekeeper.Common.{
  ℕ, ◌+◌, ◌-◌, ◌*◌, ◌%◌, ◌^◌, ◌≡◌, refl, Bool, true, false, not, ◌&&◌, ◌||◌, Option, none, some,
  List, [], ◌∷◌, ◌++◌, if◌then◌else◌, ltb, leb, ◌==◌,
}
use beekeeper.Common.Int.{ℤ, pos, negsuc, sub_ℕ, ltb_ℤ, leb_ℤ, eqb_ℤ, to_word}
use beekeeper.Common.Outcome.{Outcome, ok, err, panic, ◌>>=◌, ◌>>◌}
use beekeeper.Common.Dict.{Dict}

-- `strings.Split(s, "_")[1]`: what stands after the first "_", up to the next one.
unfoldable pub until_separator : List ℕ → List ℕ
until_separator [] = []
until_separator (c ∷ s) = let rest = until_separator s in if c == b'_' then [] else c ∷ rest

unfoldable pub second_part : List ℕ → Option (List ℕ)
unfolding until_separator
second_part [] = none
second_part (c ∷ s) =
    let rest = second_part s in if c == b'_' then some (until_separator s) else rest

-- The decimal digits of a text, after the value `acc`. A value that no uint64 holds ends the reading
-- as out of range, whatever comes after it.
unfoldable pub decimal : ℕ → List ℕ → Option ℕ
decimal acc [] = some acc
decimal acc (c ∷ s) =
    let next = 10 * acc + (c - b'0') in
    let rest = decimal next s in
    if leb b'0' c && leb c b'9' then if ltb next (2 ^ 64) then rest else some next else none

unfoldable pub unsigned : List ℕ → Option ℕ
unfolding decimal
unsigned [] = none
unsigned (c ∷ s) = decimal 0 (c ∷ s)

-- `strconv.Atoi`: the value, and whether there is no error. A syntax error gives 0, a value out of
-- range the nearest one.
unfoldable pub in_range : Bool → Option ℕ → ℤ × Bool
in_range negative none = (pos 0, false)
in_range true (some n) = if leb n (2 ^ 63) then (sub_ℕ 0 n, true) else (negsuc (2 ^ 63 - 1), false)
in_range false (some n) = if ltb n (2 ^ 63) then (pos n, true) else (pos (2 ^ 63 - 1), false)

unfoldable pub atoi : List ℕ → ℤ × Bool
unfolding in_range unsigned
atoi [] = (pos 0, false)
atoi (c ∷ s) =
    if c == b'-'
    then in_range true (unsigned s)
    else if c == b'+'
    then in_range false (unsigned s)
    else in_range false (unsigned (c ∷ s))

atoi_bin : atoi (b'1' ∷ b'2' ∷ []) ≡ (pos 12, true)
unfolding atoi
atoi_bin = refl

-- The range error of 20 digits comes before the syntax error of what follows them.
atoi_range :
    atoi (
      b'9' ∷ b'9' ∷ b'9' ∷ b'9' ∷ b'9' ∷ b'9' ∷ b'9' ∷ b'9' ∷ b'9' ∷ b'9' ∷ b'9' ∷ b'9' ∷ b'9'
      ∷ b'9' ∷ b'9' ∷ b'9' ∷ b'9' ∷ b'9' ∷ b'9' ∷ b'9' ∷ b'x' ∷ [])
    ≡ (pos (2 ^ 63 - 1), false)
unfolding atoi
atoi_range = refl

pub data KademliaError : Type 0 where
  not_healthy bin_syntax bin_connected bin_disconnected : KademliaError

pub record Bin (A : Type 0) : Type 0 where
  pub population : ℤ
  pub connected : ℤ
  pub disconnected_peers : List A
  pub connected_peers : List A

pub record Topology (A : Type 0) : Type 0 where
  pub overlay : A
  pub depth : ℤ
  pub bins : List (List ℕ × Bin A)

abbrev pub Topologies : Type 0 → Type 0
Topologies A = Dict (Dict (Topology A))

-- The number of a bin, from its key; without "_" the index 1 is out of range.
unfoldable pub bin_number : List ℕ → Outcome KademliaError (ℤ × Bool)
unfolding second_part atoi
bin_number key = elim (second_part key) [ none ↦ panic | some s ↦ ok (atoi s) ]

abbrev pub is_empty : {A : Type 0} → List A → Bool
is_empty [] = true
is_empty (x ∷ xs) = false

module _ {A : Type 0} where
  unfoldable pub check_bin : ℤ → Bin A → ℤ × Bool → Outcome KademliaError (Unit {0})
  check_bin depth b (bin_depth, parsed) =
      if not parsed
      then err bin_syntax
      else if ltb_ℤ bin_depth depth && ltb_ℤ b.connected (pos 1)
      then err bin_connected
      else if leb_ℤ depth bin_depth && not (is_empty b.disconnected_peers)
      then err bin_disconnected
      else ok tt

  unfoldable pub check_bins : ℤ → List (List ℕ × Bin A) → Outcome KademliaError (Unit {0})
  unfolding bin_number check_bin
  check_bins depth [] = ok tt
  check_bins depth ((key, b) ∷ bins) =
      (bin_number key >>= check_bin depth b) >> check_bins depth bins

  unfoldable pub check_topology : Topology A → Outcome KademliaError (Unit {0})
  unfolding check_bins
  check_topology t = if eqb_ℤ t.depth (pos 0) then err not_healthy else check_bins t.depth t.bins

  unfoldable pub check_group : Dict (Topology A) → Outcome KademliaError (Unit {0})
  unfolding check_topology
  check_group [] = ok tt
  check_group ((_, t) ∷ group) = check_topology t >> check_group group

  unfoldable pub check_kademlia : Topologies A → Outcome KademliaError (Unit {0})
  unfolding check_group
  check_kademlia [] = ok tt
  check_kademlia ((_, group) ∷ topologies) = check_group group >> check_kademlia topologies

  unfoldable pub group_overlays : Dict (Topology A) → List A
  group_overlays [] = []
  group_overlays ((_, t) ∷ group) = t.overlay ∷ group_overlays group

  unfoldable pub all_overlays : Topologies A → List A
  unfolding group_overlays
  all_overlays [] = []
  all_overlays ((_, group) ∷ topologies) = group_overlays group ++ all_overlays topologies

  -- The peers of the bins at the depth or deeper; a key that is no number is only logged.
  unfoldable pub peers_within : ℤ → List (List ℕ × Bin A) → Outcome KademliaError (List A)
  unfolding bin_number
  peers_within depth [] = ok []
  peers_within depth ((key, b) ∷ bins) = do
    (bin, _) ← bin_number key
    rest ← peers_within depth bins
    ok (if leb_ℤ depth bin then b.connected_peers ++ rest else rest)

module _ {A : Type 0} (equal : A → A → Bool) (proximity : A → A → ℕ) where
  unfoldable pub nodes_in_depth : ℕ → A → List A → List A
  nodes_in_depth d pivot [] = []
  nodes_in_depth d pivot (addr ∷ addrs) =
      let rest = nodes_in_depth d pivot addrs in
      if equal addr pivot then rest else if leb d (proximity pivot addr) then addr ∷ rest else rest

  unfoldable pub occurs : A → List A → Bool
  occurs e [] = false
  occurs e (n ∷ nodes) = equal e n || occurs e nodes

  unfoldable pub verify_nodes : List A → List A → List A
  unfolding occurs
  verify_nodes [] nodes = []
  verify_nodes (e ∷ exp) nodes =
      let rest = verify_nodes exp nodes in if occurs e nodes then rest else e ∷ rest

  -- The addresses that a node should be connected to and is not; `uint8(t.Depth)` wraps.
  unfoldable pub missing : List A → Topology A → Outcome KademliaError (List A)
  unfolding nodes_in_depth peers_within verify_nodes
  missing overlays t =
      if eqb_ℤ t.depth (pos 0)
      then err not_healthy
      else (peers_within t.depth t.bins >>= λ nodes.
          ok (verify_nodes (nodes_in_depth (to_word t.depth % 256) t.overlay overlays) nodes))

  -- Whether a node of the group has culprits; the first unhealthy node ends the loop.
  unfoldable pub group_culprits : List A → Dict (Topology A) → Outcome KademliaError Bool
  unfolding missing
  group_culprits overlays [] = ok false
  group_culprits overlays ((_, t) ∷ group) = do
    c ← missing overlays t
    rest ← group_culprits overlays group
    ok (not (is_empty c) || rest)

  unfoldable pub culprits : List A → Topologies A → Outcome KademliaError Bool
  unfolding group_culprits
  culprits overlays [] = ok false
  culprits overlays ((_, group) ∷ topologies) = do
    c ← group_culprits overlays group
    rest ← culprits overlays topologies
    ok (c || rest)

  -- `ok true` stands for the error that lists the culprits, `ok false` for nil.
  unfoldable pub check_kademlia_d : Topologies A → Outcome KademliaError Bool
  unfolding culprits all_overlays
  check_kademlia_d topologies = culprits (all_overlays topologies) topologies
