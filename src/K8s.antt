-- ===== src/K8s.antt =====
-- The objects of the Kubernetes API that the program reads (package k8s.io/client-go/pkg/api/v1),
-- with the fields that it reads, and the values that it passes about as `interface{}`.
use lbex.Prelude.{String, Bool, Option, List}
use lbex.Prelude.Int.{ℤ}
use lbex.Prelude.Dict.{Dict}

-- intstr.IntOrString; `Type` is `Int` or `String`
pub data IntstrType : Type 0 where
  int string : IntstrType

pub record IntOrString : Type 0 where
  pub type : IntstrType
  pub int_val : ℤ
  pub str_val : String

pub record V1ServicePort : Type 0 where
  pub name : String
  pub protocol : String
  pub port : ℤ
  pub target_port : IntOrString
  pub node_port : ℤ

-- metadata and spec in one record
pub record V1Service : Type 0 where
  pub name : String
  pub namespace : String
  pub annotations : Dict String
  pub service_type : String
  pub cluster_ip : String
  pub ports : List V1ServicePort

-- `NodeName` is a pointer, and may be nil
pub record V1EndpointAddress : Type 0 where
  pub ip : String
  pub node_name : Option String

pub record V1EndpointPort : Type 0 where
  pub name : String
  pub port : ℤ
  pub protocol : String

pub record V1EndpointSubset : Type 0 where
  pub addresses : List V1EndpointAddress
  pub ports : List V1EndpointPort

pub record V1Endpoints : Type 0 where
  pub name : String
  pub namespace : String
  pub subsets : List V1EndpointSubset

pub data V1NodeAddressType : Type 0 where
  hostname external_ip internal_ip other_type : V1NodeAddressType

pub record V1NodeAddress : Type 0 where
  pub type : V1NodeAddressType
  pub address : String

pub record V1Node : Type 0 where
  pub name : String
  pub namespace : String
  pub pod_cidr : String
  pub unschedulable : Bool
  pub addresses : List V1NodeAddress

-- A value of type `interface{}`, by its dynamic type.
pub data Object : Type 0 where
  v1_service : V1Service → Object
  v1_service_port : V1ServicePort → Object
  v1_endpoints : V1Endpoints → Object
  v1_node : V1Node → Object
  api_service api_node : Object
  text : String → Object
  other : String → Object

-- Values of `Service.Spec.Type`, constants of package api.
abbrev pub type_load_balancer : String
type_load_balancer = "LoadBalancer"

abbrev pub type_node_port : String
type_node_port = "NodePort"

abbrev pub type_cluster_ip : String
type_cluster_ip = "ClusterIP"

abbrev pub type_external_name : String
type_external_name = "ExternalName"
