-- ===== src/NodeInfo.antt =====
-- node.go: what the controller reads from a node of the API.
pub mod Laws
use lbex.Prelude.{String, Bool, true, false, not, Option, none, some, List, [], ◌∷◌}
use lbex.K8s.{
  Object, v1_node, api_node, V1Node, V1NodeAddress, hostname, external_ip, internal_ip, other_type,
}

pub record NodeAddress : Type 0 where
  pub hostname : String
  pub external_ip : String
  pub internal_ip : String

unfoldable pub validate_node_object_type : Object → Option String
validate_node_object_type (v1_node _) = none
validate_node_object_type api_node = some "unsupported type api.* (must be v1.*)"
validate_node_object_type _ = some "unexpected type"

unfoldable pub get_node_name : Object → String × Option String
get_node_name (v1_node n) = (n.name, none)
get_node_name _ = ("", some "type assertion failure")

unfoldable pub get_node_namespace : Object → String × Option String
get_node_namespace (v1_node n) = (n.namespace, none)
get_node_namespace _ = ("", some "type assertion failure")

unfoldable pub get_node_pod_cidr : Object → String × Option String
get_node_pod_cidr (v1_node n) = (n.pod_cidr, none)
get_node_pod_cidr _ = ("", some "type assertion failure")

-- the switch on the type of an address
unfoldable pub set_address : V1NodeAddress → NodeAddress → NodeAddress
set_address a node_addr = elim a.type [
  | hostname ↦ record node_addr { hostname = a.address }
  | external_ip ↦ record node_addr { external_ip = a.address }
  | internal_ip ↦ record node_addr { internal_ip = a.address }
  | other_type ↦ node_addr
]

unfoldable pub set_addresses : List V1NodeAddress → NodeAddress → NodeAddress
unfolding set_address
set_addresses [] node_addr = node_addr
set_addresses (a ∷ rest) node_addr = set_addresses rest (set_address a node_addr)

abbrev pub no_address : NodeAddress
no_address = record { hostname = ""; external_ip = ""; internal_ip = "" }

unfoldable pub get_node_address : Object → NodeAddress × Option String
unfolding set_addresses
get_node_address (v1_node n) = (set_addresses n.addresses no_address, none)
get_node_address _ = (no_address, some "type assertion failure")

-- `if err != nil { return "", err }`, then the field
abbrev address_field : (NodeAddress → String) → NodeAddress × Option String → String × Option String
address_field field (addrs, some err) = ("", some err)
address_field field (addrs, none) = (field addrs, none)

unfoldable pub get_node_external_ip : Object → String × Option String
unfolding get_node_address
get_node_external_ip obj = address_field (λ a. a.external_ip) (get_node_address obj)

unfoldable pub get_node_internal_ip : Object → String × Option String
unfolding get_node_address
get_node_internal_ip obj = address_field (λ a. a.internal_ip) (get_node_address obj)

unfoldable pub get_node_hostname : Object → String × Option String
unfolding get_node_address
get_node_hostname obj = address_field (λ a. a.hostname) (get_node_address obj)

unfoldable pub is_node_scheduleable : Object → Bool
is_node_scheduleable (v1_node n) = not n.unschedulable
is_node_scheduleable _ = false
