-- ===== src/Provider/Services.antt =====
-- The services of a namespace: `GetNodes` and `FindNode` of pkg/k8s/service/client.go.
use beekeeper.Common.{
  ℕ, Bool, true, false, not, ◌&&◌, Option, none, some, List, [], ◌∷◌, ◌++◌, if◌then◌else◌, String,
  str_eq,
}
use Prim.Native.String.{◌++◌ as str_append}
use beekeeper.Common.Outcome.{Outcome, ok, err}
use beekeeper.Common.Dict.{Dict, lookup}
use beekeeper.Setup.Names.{print}

pub record ServicePort : Type 0 where
  pub name : String
  pub port : ℕ

pub record Service : Type 0 where
  pub name : String
  pub cluster_ip : String
  pub selector : Option (Dict String)
  pub ports : List ServicePort

pub record NodeInfo : Type 0 where
  pub name : String
  pub endpoint : String

pub data ServiceError : Type 0 where
  listing_services no_matching_service : ServiceError

-- `fmt.Sprintf("http://%s:%v", ip, port)`
unfoldable pub endpoint_of : String → ℕ → String
unfolding print
endpoint_of ip port = str_append "http://" (str_append ip (str_append ":" (print port)))

-- A node for each API port of a service with a cluster IP.
unfoldable pub ports_of : String → String → List ServicePort → List NodeInfo
unfolding endpoint_of
ports_of name ip [] = []
ports_of name ip (p ∷ ports) =
    let rest = ports_of name ip ports in
    if str_eq p.name "api" && not (str_eq ip "None")
    then record { name = name; endpoint = endpoint_of ip p.port } ∷ rest
    else rest

-- The nodes of services.
unfoldable pub nodes_of : List Service → List NodeInfo
unfolding ports_of
nodes_of [] = []
nodes_of (svc ∷ svcs) = ports_of svc.name svc.cluster_ip svc.ports ++ nodes_of svcs

-- `GetNodes`
unfoldable pub get_service_nodes : Option (List Service) → Outcome ServiceError (List NodeInfo)
unfolding nodes_of
get_service_nodes none = err listing_services
get_service_nodes (some svcs) = ok (nodes_of svcs)

-- `pod.Labels[key]`, which is empty for a key that is missing.
unfoldable pub label : Dict String → String → String
unfolding lookup
label labels key = elim (lookup key labels) [ none ↦ "" | some value ↦ value ]

unfoldable pub matches : Dict String → Dict String → Bool
unfolding label
matches labels [] = true
matches labels ((key, value) ∷ selector) =
    let rest = matches labels selector in if str_eq (label labels key) value then rest else false

unfoldable pub api_port : List ServicePort → Option ℕ
api_port [] = none
api_port (p ∷ ports) = if str_eq p.name "api" then some p.port else api_port ports

-- The node of a service that selects the labels of the pod.
unfoldable pub selected : Dict String → Service → Option NodeInfo
unfolding matches api_port endpoint_of
selected labels svc = elim svc.selector [
  | none ↦ none
  | some selector ↦
      if matches labels selector
      then elim (api_port svc.ports) [
        | none ↦ none
        | some port ↦ some (record { name = svc.name; endpoint = endpoint_of svc.cluster_ip port })
      ]
      else none
]

unfoldable pub first_selected : Dict String → List Service → Outcome ServiceError NodeInfo
unfolding selected
first_selected labels [] = err no_matching_service
first_selected labels (svc ∷ svcs) = elim (selected labels svc) [
  | some node ↦ ok node
  | none ↦ first_selected labels svcs
]

unfoldable pub find_node : Dict String → Option (List Service) → Outcome ServiceError NodeInfo
unfolding first_selected
find_node labels none = err listing_services
find_node labels (some svcs) = first_selected labels svcs
