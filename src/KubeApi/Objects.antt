-- ===== src/KubeApi/Objects.antt =====
-- The objects of the Kubernetes API that pkg/k8s/pod/client.go and pkg/k8s/statefulset read, and what
-- the API of one namespace answers. `settings` is the rest of an object, as a text.
use beekeeper.Common.{ℕ, Bool, Option, List, String}

pub record OwnerReference : Type 0 where
  pub kind : String
  pub name : String

pub record Condition : Type 0 where
  pub type : String
  pub status : String

-- `deleting` tells whether the deletion time is set.
pub record Pod : Type 0 where
  pub name : String
  pub owner_references : List OwnerReference
  pub deleting : Bool
  pub pod_ip : String
  pub phase : String
  pub conditions : List Condition

-- The strategy of the API: a rolling update has a partition or none.
pub record StatefulSetUpdateStrategy : Type 0 where
  pub type : String
  pub rolling_update : Option (Option ℕ)

pub record Container : Type 0 where
  pub image : String
  pub settings : String

pub record StatefulSet : Type 0 where
  pub name : String
  pub update_strategy : StatefulSetUpdateStrategy
  pub containers : List Container
  pub settings : String
  pub replicas : ℕ
  pub ready_replicas : ℕ

-- The calls that change an object.
pub data Call : Type 0 where
  delete_pod update_pod create_pod delete_set : (name : String) → Call
  update_scale : (name : String) (replicas : ℕ) → Call
  update_set create_set : StatefulSet → Call

abbrev pub Log : Type 0
Log = List Call

pub data Reply (A : Type 0) : Type 0 where
  found : A → Reply A
  not_found failed : Reply A

-- The answers, which may depend on the changes so far. A change that is made is answered `found`.
pub record Api : Type 0 where
  pub get_pod : Log → String → Reply Pod
  pub list_pods : Log → Option (List Pod)
  pub get_set : Log → String → Reply StatefulSet
  pub list_sets : Log → Reply (List StatefulSet)
  pub change : Log → Call → Reply (Unit {0})

pub data KubeError : Type 0 where
  getting_pod deleting_pod creating_pod updating_pod not_controlled : (name : String) → KubeError
  listing_pods watch_closed context_done : KubeError
  pods_not_deleted : (names : List String) → KubeError
  bad_phase : (name phase : String) → KubeError
  getting_set deleting_set creating_set updating_set scaling_set : (name : String) → KubeError
  listing_sets : KubeError
