-- ===== src/Examples/Providers.antt =====
-- The provider of nodes (pkg/node) and the search for a service (pkg/k8s/service).
use beekeeper.Common.{◌≡◌, refl, ◌↔◌, Bool, true, false, none, some, [], ◌∷◌, In, String}
use beekeeper.Common.Outcome.{ok}
use beekeeper.Common.Dict.{Dict}
use beekeeper.Provider.Services.{Service, find_node}
use beekeeper.Provider.Selected.{IsSearch, find_node-IsSearch}
use beekeeper.Provider.Nodes.{BeeClient, ProvidedNode, provided_name, Provider, get_nodes}
use beekeeper.Provider.Provided.{IsWanted, get_nodes-In_iff}

abbrev labels : Dict String
labels = ("app", "bee") ∷ ("node", "bee-0") ∷ []

abbrev headless : Service
headless = record {
  name = "headless";
  cluster_ip = "None";
  selector = some (("app", "bee") ∷ []);
  ports = record { name = "p2p"; port = 1634 } ∷ [];
}

abbrev bee_service : Service
bee_service = record {
  name = "bee-0";
  cluster_ip = "10.0.0.1";
  selector = some (("node", "bee-0") ∷ ("app", "bee") ∷ []);
  ports = record { name = "p2p"; port = 1634 } ∷ record { name = "api"; port = 1633 } ∷ [];
}

service_run :
    find_node labels (some (headless ∷ bee_service ∷ []))
    ≡ ok (record { name = "bee-0"; endpoint = "http://10.0.0.1:1633" })
unfolding find_node
service_run = refl

find_node-IsSearch_example :
    IsSearch labels
      (headless ∷ bee_service ∷ [])
      (find_node labels (some (headless ∷ bee_service ∷ [])))
find_node-IsSearch_example = find_node-IsSearch labels (headless ∷ bee_service ∷ [])

abbrev bee_1 : BeeClient String
bee_1 = record { name = "bee-1"; node_group = "bee"; api = "one" }

abbrev light : BeeClient String
light = record { name = "light-0"; node_group = "light"; api = "two" }

abbrev provider : Provider String
provider = record {
  use_namespace = false;
  namespace = "";
  beekeeper = true;
  in_cluster = false;
  has_kube_client = false;
  node_groups = "bee" ∷ [];
  clients = light ∷ bee_1 ∷ [];
  services = none;
  ingresses = none;
  ingress_routes = none;
  connect = λ url. none;
}

abbrev unordered : String → String → Bool
unordered a b = false

abbrev bee_node : ProvidedNode String
bee_node = ("one", "bee-1-0")

provider_run : get_nodes provider unordered ≡ ok (bee_node ∷ [])
unfolding get_nodes
provider_run = refl

get_nodes-In_iff_example : In bee_node (bee_node ∷ []) ↔ (
    (c : BeeClient String) × In c provider.clients
    × IsWanted provider.node_groups c
    × (bee_node ≡ (c.api, provided_name provider.beekeeper c.name)))
get_nodes-In_iff_example =
    get_nodes-In_iff provider unordered (bee_node ∷ []) refl provider_run bee_node
