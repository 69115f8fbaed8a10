-- ===== src/Setup/Names.antt =====
-- The configuration of a cluster (pkg/config/cluster.go) and the names of its nodes.
use beekeeper.Common.{
  ℕ, zero, suc, ◌/◌, ◌%◌, ◌≡◌, refl, Option, List, [], ◌∷◌, if◌then◌else◌, String, str_eq, ltb,
  ◌==◌,
}
use Prim.Native.String.{◌++◌ as str_append}
use beekeeper.Common.Dict.{Dict, insert}

-- A number as `%d` prints it.
abbrev digit : ℕ → String
digit d =
    if d == 0
    then "0"
    else if d == 1
    then "1"
    else if d == 2
    then "2"
    else if d == 3
    then "3"
    else if d == 4
    then "4"
    else if d == 5
    then "5"
    else if d == 6
    then "6"
    else if d == 7
    then "7"
    else if d == 8
    then "8"
    else "9"

print_from : ℕ → ℕ → String
print_from zero n = digit n
print_from (suc fuel) n =
    let more = str_append (print_from fuel (n / 10)) (digit (n % 10)) in
    if ltb n 10 then digit n else more

-- A number has no more digits than its value and one.
unfoldable pub print : ℕ → String
unfolding print_from
print n = print_from n n

-- `fmt.Sprintf("%s-%d", ngName, i)`
unfoldable pub numbered : String → ℕ → String
unfolding print
numbered ng_name i = str_append ng_name (str_append "-" (print i))

numbered_12 : numbered "bee" 12 ≡ "bee-12"
unfolding numbered
numbered_12 = refl

pub record ClusterNode : Type 0 where
  pub name : String
  pub bootnodes : String
  pub libp2p_key : String
  pub swarm_key : Option String

pub record ClusterNodeGroup : Type 0 where
  pub mode : String
  pub bee_config : String
  pub config : String
  pub count : ℕ
  pub nodes : List ClusterNode
  pub node_endpoints : List (String × String)

abbrev pub bootnode_mode : String
bootnode_mode = "bootnode"

-- The name of a node, or the one by its number.
unfoldable pub node_name : String → ℕ → ClusterNode → String
unfolding numbered
node_name ng_name i node = if str_eq node.name "" then numbered ng_name i else node.name

-- `GetEndpoints`: the API URLs by their names.
unfoldable pub get_endpoints : Dict String → List (String × String) → Dict String
unfolding insert
get_endpoints found [] = found
get_endpoints found ((name, api_url) ∷ endpoints) =
    get_endpoints (insert name api_url found) endpoints
