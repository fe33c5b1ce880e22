-- ===== src/Service.antt =====
-- service.go: the controller's data, and the classification of the API's services.
pub mod Laws
use lbex.Prelude.{
  String, Bool, true, false, not, ◌&&◌, ◌||◌, Option, none, some, List, ◌==◌, if◌then◌else◌,
}
use Prim.Native.String.{◌++◌}
use lbex.Prelude.Int.{ℤ, pos, eqb_ℤ}
use lbex.Prelude.Text.{equal_fold, itoa}
use lbex.K8s.{
  Object, v1_service, v1_service_port, api_service, IntOrString, type_load_balancer, type_node_port,
  type_cluster_ip, type_external_name,
}
use lbex.Annotations.{is_valid}

abbrev pub none_string : String
none_string = "none"

pub record Endpoint : Type 0 where
  pub service_port : ℤ
  pub node_ip : String
  pub node_name : String
  pub node_port : ℤ
  pub port_name : String
  pub pod_ip : String
  pub pod_port : ℤ
  pub protocol : String

pub record Service : Type 0 where
  pub name : String
  pub ep : List String
  pub endpoints : List Endpoint
  pub backend_port : ℤ
  pub frontend_port : ℤ
  pub host : String
  pub algorithm : String

-- The errors of service.go, by their text.
abbrev pub type_assertion_failure : String
type_assertion_failure = "type assertion failure"

unfoldable pub validate_service_object_type : Object → Option String
validate_service_object_type (v1_service _) = none
validate_service_object_type api_service =
    some "ValidateServiceObjectType: unsupported type api.* (must be v1.*)"
validate_service_object_type _ = some "ValidateServiceObjectType: unexpected type"

unfoldable pub get_service_name : Object → String × Option String
get_service_name (v1_service s) = (s.name, none)
get_service_name _ = ("", some type_assertion_failure)

unfoldable pub get_service_namespace : Object → String × Option String
get_service_namespace (v1_service s) = (s.namespace, none)
get_service_namespace _ = ("", some type_assertion_failure)

unfoldable pub get_service_type : Object → String × Option String
get_service_type (v1_service s) = (s.service_type, none)
get_service_type _ = ("", some type_assertion_failure)

-- `if err != nil { return false }; return value == expected`
abbrev same_type : String → String × Option String → Bool
same_type expected (service_type, none) = service_type == expected
same_type expected (service_type, some err) = false

unfoldable pub service_type_load_balancer : Object → Bool
unfolding get_service_type
service_type_load_balancer obj = same_type type_load_balancer (get_service_type obj)

unfoldable pub service_type_node_port : Object → Bool
unfolding get_service_type
service_type_node_port obj = same_type type_node_port (get_service_type obj)

unfoldable pub service_type_cluster_ip : Object → Bool
unfolding get_service_type
service_type_cluster_ip obj = same_type type_cluster_ip (get_service_type obj)

unfoldable pub service_type_external_name : Object → Bool
unfolding get_service_type
service_type_external_name obj = same_type type_external_name (get_service_type obj)

unfoldable pub get_cluster_ip : Object → String × Option String
get_cluster_ip (v1_service s) = (s.cluster_ip, none)
get_cluster_ip _ = ("", some type_assertion_failure)

unfoldable pub service_type_headless : Object → Bool
unfolding get_cluster_ip
service_type_headless obj = elim (get_cluster_ip obj).1 [
  | some err ↦ false
  | none ↦ equal_fold (get_cluster_ip obj).0 none_string
]

unfoldable pub is_valid_service_type : Object → Bool
unfolding service_type_headless service_type_node_port service_type_cluster_ip
    service_type_load_balancer
is_valid_service_type obj =
    if not (service_type_headless obj)
      && (service_type_node_port obj
          || service_type_cluster_ip obj
          || service_type_load_balancer obj)
    then true
    else false

unfoldable pub validate_service_object : Object → Bool
unfolding validate_service_object_type is_valid_service_type
validate_service_object obj = elim (validate_service_object_type obj) [
  | some err ↦ false
  | none ↦
      if not (is_valid_service_type obj) then false else if not (is_valid obj) then false else true
]

-- `TargetPort.IntValue()` is client-go's, an argument here.
unfoldable pub get_service_port_target_port_int : (IntOrString → ℤ) → Object → ℤ × Option String
get_service_port_target_port_int int_value (v1_service_port p) = (int_value p.target_port, none)
get_service_port_target_port_int int_value _ = (pos 0, some type_assertion_failure)

unfoldable pub get_service_port_target_port_string : Object → String × Option String
get_service_port_target_port_string (v1_service_port p) = (p.target_port.str_val, none)
get_service_port_target_port_string _ = ("", some type_assertion_failure)

unfoldable pub get_service_name_for_lb_rule : String → ℤ → String
get_service_name_for_lb_rule service_name service_port =
    if eqb_ℤ service_port (pos 80) then service_name else service_name ++ ":" ++ itoa service_port
