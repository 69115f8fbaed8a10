-- ===== src/Provider/Nodes.antt =====
-- The provider of nodes, pkg/node/client.go, with the filter of pkg/orchestration/cluster.go and the
-- nodes of ingresses (pkg/k8s/ingress, pkg/k8s/customresource/ingressroute). Parsing a URL and making a
-- client of it are a parameter.
use beekeeper.Common.{
  Bool, not, ◌&&◌, Option, none, some, List, [], ◌∷◌, ◌++◌, if◌then◌else◌, String, str_eq,
}
use Prim.Native.String.{◌++◌ as str_append}
use beekeeper.Common.Outcome.{Outcome, ok, err, ◌>>=◌}
use beekeeper.Provider.Services.{NodeInfo}

-- A client of the map, with the API client that a node takes from it.
pub record BeeClient (Api : Type 0) : Type 0 where
  pub name : String
  pub node_group : String
  pub api : Api

-- The host of a rule of an ingress, or of a route of an ingress route, which may be empty.
pub record Ingress : Type 0 where
  pub name : String
  pub hosts : List String

pub data ProviderError : Type 0 where
  no_clients nodes_not_found no_namespace no_kube_client : ProviderError
  listing_failed base_url_failed : ProviderError

-- A node: its client and its name.
abbrev pub ProvidedNode : Type 0 → Type 0
ProvidedNode Api = Api × String

-- The nodes of ingresses, one for each host that is not empty.
unfoldable pub hosts_of : String → List String → List (String × String)
hosts_of name [] = []
hosts_of name (host ∷ hosts) =
    let rest = hosts_of name hosts in if str_eq host "" then rest else (name, host) ∷ rest

unfoldable pub ingress_nodes : List Ingress → List (String × String)
unfolding hosts_of
ingress_nodes [] = []
ingress_nodes (i ∷ ingresses) = hosts_of i.name i.hosts ++ ingress_nodes ingresses

-- `beekeeper` tells whether the deployment is one of Beekeeper, whose sets have one replica.
unfoldable pub provided_name : Bool → String → String
provided_name beekeeper name = if beekeeper then str_append name "-0" else name

module _ {Api : Type 0} where
  -- The clients of one group, in the order of the range over the map.
  unfoldable pub of_group : String → List (BeeClient Api) → List (BeeClient Api)
  of_group ng [] = []
  of_group ng (client ∷ clients) =
      let rest = of_group ng clients in if str_eq client.node_group ng then client ∷ rest else rest

  -- The groups one after the other; the map is given in one order for all ranges.
  unfoldable pub of_groups : List String → List (BeeClient Api) → List (BeeClient Api)
  unfolding of_group
  of_groups [] clients = []
  of_groups (ng ∷ groups) clients = of_group ng clients ++ of_groups groups clients

  unfoldable pub filter_by_node_groups : List String → List (BeeClient Api) → List (BeeClient Api)
  unfolding of_groups
  filter_by_node_groups [] clients = clients
  filter_by_node_groups (ng ∷ groups) clients = of_groups (ng ∷ groups) clients

  -- A stable sort by `before`, the order of the names.
  unfoldable pub insert_node :
      (String → String → Bool)
      → ProvidedNode Api
      → List (ProvidedNode Api)
      → List (ProvidedNode Api)
  insert_node before n [] = n ∷ []
  insert_node before n (m ∷ nodes) =
      let rest = insert_node before n nodes in if before m.1 n.1 then m ∷ rest else n ∷ m ∷ nodes

  unfoldable pub sort : (String → String → Bool) → List (ProvidedNode Api) → List (ProvidedNode Api)
  unfolding insert_node
  sort before [] = []
  sort before (n ∷ nodes) = insert_node before n (sort before nodes)

  unfoldable pub new_nodes : Bool → List (BeeClient Api) → List (ProvidedNode Api)
  unfolding provided_name
  new_nodes beekeeper [] = []
  new_nodes beekeeper (client ∷ clients) =
      (client.api, provided_name beekeeper client.name) ∷ new_nodes beekeeper clients

  -- `connect` is `url.Parse` and `api.NewClient`.
  unfoldable pub connect_nodes :
      (String → Option Api)
      → Bool
      → List (String × String)
      → Outcome ProviderError (List (ProvidedNode Api))
  unfolding provided_name
  connect_nodes connect beekeeper [] = ok []
  connect_nodes connect beekeeper ((name, url) ∷ nodes) = elim (connect url) [
    | none ↦ err base_url_failed
    | some api ↦ connect_nodes connect beekeeper nodes >>= λ rest.
        ok ((api, provided_name beekeeper name) ∷ rest)
  ]

abbrev pub named : List NodeInfo → List (String × String)
named [] = []
named (n ∷ nodes) = (n.name, n.endpoint) ∷ named nodes

abbrev pub with_scheme : List (String × String) → List (String × String)
with_scheme [] = []
with_scheme ((name, host) ∷ nodes) = (name, str_append "http://" host) ∷ with_scheme nodes

-- The fields of the provider, and what the cluster lists.
pub record Provider (Api : Type 0) : Type 0 where
  pub use_namespace : Bool
  pub namespace : String
  pub beekeeper : Bool
  pub in_cluster : Bool
  pub has_kube_client : Bool
  pub node_groups : List String
  pub clients : List (BeeClient Api)
  pub services : Option (List NodeInfo)
  pub ingresses : Option (List Ingress)
  pub ingress_routes : Option (List Ingress)
  pub connect : String → Option Api

module _ {Api : Type 0} (p : Provider Api) where
  unfoldable pub get_service_provided : Outcome ProviderError (List (ProvidedNode Api))
  unfolding connect_nodes
  get_service_provided = elim p.services [
    | none ↦ err listing_failed
    | some nodes ↦ connect_nodes p.connect p.beekeeper (named nodes)
  ]

  unfoldable pub get_ingress_provided : Outcome ProviderError (List (ProvidedNode Api))
  unfolding connect_nodes ingress_nodes
  get_ingress_provided = elim p.ingresses [
    | none ↦ err listing_failed
    | some ingresses ↦ elim p.ingress_routes [
      | none ↦ err listing_failed
      | some routes ↦
          connect_nodes p.connect p.beekeeper
            (with_scheme (ingress_nodes ingresses ++ ingress_nodes routes))
    ]
  ]

  unfoldable pub get_namespace_nodes : Outcome ProviderError (List (ProvidedNode Api))
  unfolding get_service_provided get_ingress_provided
  get_namespace_nodes =
      if str_eq p.namespace ""
      then err no_namespace
      else if not p.has_kube_client
      then err no_kube_client
      else if p.in_cluster
      then get_service_provided
      else get_ingress_provided

  unfoldable pub get_nodes :
      (String → String → Bool) → Outcome ProviderError (List (ProvidedNode Api))
  unfolding get_namespace_nodes filter_by_node_groups new_nodes sort
  get_nodes before =
      if p.use_namespace && not (str_eq p.namespace "")
      then get_namespace_nodes
      else elim p.clients [
        | [] ↦ err no_clients
        | c ∷ cs ↦ elim (filter_by_node_groups p.node_groups (c ∷ cs)) [
          | [] ↦ err nodes_not_found
          | d ∷ ds ↦ ok (sort before (new_nodes p.beekeeper (d ∷ ds)))
        ]
      ]
