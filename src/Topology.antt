-- ===== src/Topology.antt =====
-- controller.go, the part that reads the stores: which services are managed, and where their
-- traffic goes. A nil slice and an empty one are both `[]`; every caller treats them alike.
pub mod Endpoints
pub mod Managed
pub mod Result
use lbex.Prelude.{
  String, Bool, true, false, not, ◌&&◌, ◌||◌, Option, none, some, List, [], ◌∷◌, ◌++◌, ◌==◌,
  if◌then◌else◌,
}
use Prim.Native.String.{compare, ◌++◌ as ◌⧺◌}
use text.Mathlib.Text.{is_lt}
use lbex.Selection.{check_affinity, base_check}
use lbex.Prelude.Int.{ℤ, pos, eqb_ℤ, leb_ℤ, to_int32}
use lbex.Runtime.{Runtime}
use lbex.Outcome.{Outcome, done, halt, nil_dereference, type_assertion, ◌>>=◌}
use lbex.Client.{Client, Store, found, absent, failed}
use lbex.Config.{Config}
use lbex.K8s.{
  Object, v1_service, v1_service_port, v1_endpoints, V1Service, V1ServicePort, V1Endpoints,
  V1EndpointAddress, V1EndpointPort, V1EndpointSubset, int, string,
}
use lbex.Annotations.{
  lbex_port_annotation_base, lbex_pool_key, lbex_host_key, get_int_annotation,
  get_optional_string_annotation,
}
use lbex.Service.{
  Endpoint, Service, validate_service_object, get_service_name, get_service_namespace,
  get_service_port_target_port_int, get_service_name_for_lb_rule,
}

-- the loop of getServiceEndpoints; `last` is the named result, which holds the last item on failure
unfoldable pub find_endpoints :
    V1Service → List Object → V1Endpoints → Outcome (V1Endpoints × Option String)
find_endpoints s [] last = done (last, some ("could not find endpoints for service: " ⧺ s.name))
find_endpoints s (v1_endpoints e ∷ rest) last =
    if s.name == e.name && s.namespace == e.namespace
    then done (e, none)
    else find_endpoints s rest e
find_endpoints s (_ ∷ rest) last = halt type_assertion

abbrev pub no_endpoints : V1Endpoints
no_endpoints = record { name = ""; namespace = ""; subsets = [] }

-- getServiceEndpoints
unfoldable pub get_service_endpoints : Store → V1Service → Outcome (V1Endpoints × Option String)
unfolding find_endpoints
get_service_endpoints endpoint_store s = find_endpoints s endpoint_store.list no_endpoints

-- the target port of an endpoint port for a service port, 0 where it is another port's
unfoldable pub target_port : Client → V1ServicePort → V1EndpointPort → ℤ
unfolding get_service_port_target_port_int
target_port c sp ep = elim sp.target_port.type [
  | int ↦
      let (i, err) = get_service_port_target_port_int c.int_value (v1_service_port sp) in
      elim err [ some e ↦ pos 0 | none ↦ if eqb_ℤ ep.port (to_int32 i) then i else pos 0 ]
  | string ↦ if ep.name == sp.target_port.str_val then ep.port else pos 0
]

abbrev pub endpoint_of : V1ServicePort → V1EndpointPort → ℤ → V1EndpointAddress → String → Endpoint
endpoint_of sp ep port a node_name = record {
  service_port = sp.port;
  node_ip = "";
  node_name = node_name;
  node_port = sp.node_port;
  port_name = ep.name;
  pod_ip = a.ip;
  pod_port = port;
  protocol = ep.protocol;
}

-- the three loops of getEndpoints, innermost first; `*epAddress.NodeName` panics on nil
unfoldable pub address_endpoints :
    V1ServicePort
    → V1EndpointPort
    → ℤ
    → List V1EndpointAddress
    → List Endpoint
    → Outcome (List Endpoint)
address_endpoints sp ep port [] acc = done acc
address_endpoints sp ep port (a ∷ rest) acc = elim a.node_name [
  | none ↦ halt nil_dereference
  | some node_name ↦
      address_endpoints sp ep port rest (acc ++ endpoint_of sp ep port a node_name ∷ [])
]

unfoldable pub port_endpoints :
    Client
    → V1ServicePort
    → List V1EndpointAddress
    → List V1EndpointPort
    → List Endpoint
    → Outcome (List Endpoint)
unfolding target_port address_endpoints
port_endpoints c sp addresses [] acc = done acc
port_endpoints c sp addresses (ep ∷ rest) acc =
    let port = target_port c sp ep in
    let skipped = port_endpoints c sp addresses rest acc in
    let added = address_endpoints sp ep port addresses acc >>= port_endpoints c sp addresses rest in
    if eqb_ℤ port (pos 0) then skipped else added

unfoldable pub subset_endpoints :
    Client → V1ServicePort → List V1EndpointSubset → List Endpoint → Outcome (List Endpoint)
unfolding port_endpoints
subset_endpoints c sp [] acc = done acc
subset_endpoints c sp (subset ∷ rest) acc = do
  acc' ← port_endpoints c sp subset.addresses subset.ports acc
  subset_endpoints c sp rest acc'

-- `if err != nil { return }`: no endpoints for a service that has none in the store
endpoints_or_none : Client → V1ServicePort → V1Endpoints × Option String → Outcome (List Endpoint)
unfolding subset_endpoints
endpoints_or_none c sp (e, some err) = done []
endpoints_or_none c sp (e, none) = subset_endpoints c sp e.subsets []

-- getEndpoints
unfoldable pub get_endpoints : Client → Store → V1Service → V1ServicePort → Outcome (List Endpoint)
unfolding get_service_endpoints endpoints_or_none
get_endpoints c endpoint_store s sp =
    get_service_endpoints endpoint_store s >>= endpoints_or_none c sp

-- serviceByName.Less, the order that the results are sorted by
unfoldable pub service_by_name : Service → Service → Bool
service_by_name a b = is_lt (compare a.name b.name)

-- the entry for a service port; a port without endpoints is left out
unfoldable pub add_target :
    Client → String → String → V1ServicePort → List Endpoint → List Service → List Service
unfolding get_service_port_target_port_int get_service_name_for_lb_rule
add_target c service_name host sp [] targets = targets
add_target c service_name host sp (e ∷ es) targets =
    targets
    ++ record {
      name = get_service_name_for_lb_rule service_name sp.port;
      ep = [];
      endpoints = e ∷ es;
      backend_port = (get_service_port_target_port_int c.int_value (v1_service_port sp)).0;
      frontend_port = sp.port;
      host = host;
      algorithm = "";
    }
      ∷ []

-- the loop of getServiceNetworkTopo over the service's ports
unfoldable pub service_targets :
    Client → Store → V1Service → String → List V1ServicePort → List Service → Outcome (List Service)
unfolding get_endpoints add_target
service_targets c endpoint_store s host [] targets = done targets
service_targets c endpoint_store s host (sp ∷ rest) targets = do
  endpoints ← get_endpoints c endpoint_store s sp
  service_targets c endpoint_store s host rest (add_target c s.name host sp endpoints targets)

-- `if val, ok := GetOptionalStringAnnotation(key, service); ok { x = val }`, for `var x string`
unfoldable pub string_or_empty : String × Bool → String
string_or_empty (val, true) = val
string_or_empty (val, false) = ""

-- getServiceNetworkTopo for the service that the store holds, once baseCheck has passed
unfoldable pub service_topo : Runtime → Client → Config → Store → V1Service → Outcome (List Service)
unfolding service_targets string_or_empty service_by_name
service_topo rt c cfg endpoint_store s =
    let pool = string_or_empty (get_optional_string_annotation lbex_pool_key (v1_service s)) in
    let host = string_or_empty (get_optional_string_annotation lbex_host_key (v1_service s)) in
    let targets = service_targets c endpoint_store s host s.ports [] in
    if not (cfg.service_name == "") && not (cfg.service_name == s.name)
    then done []
    else if not (check_affinity cfg pool)
    then done []
    else (do found_targets ← targets; done (rt.sort Service service_by_name found_targets))

-- `service, _ := obj.(*v1.Service)`, which is a service once baseCheck has passed
object_topo : Runtime → Client → Config → Store → Object → Outcome (List Service)
unfolding service_topo
object_topo rt c cfg endpoint_store (v1_service s) = service_topo rt c cfg endpoint_store s
object_topo rt c cfg endpoint_store _ = halt nil_dereference

-- getServiceNetworkTopo
unfoldable pub get_service_network_topo :
    Runtime → Client → Config → Store → Store → String → Outcome (List Service)
unfolding object_topo
get_service_network_topo rt c cfg services_store endpoint_store key =
    elim (services_store.get_by_key key) [
      | failed err ↦ done []
      | absent ↦ done []
      | found obj ↦
          if not (base_check cfg obj) then done [] else object_topo rt c cfg endpoint_store obj
    ]

-- the loop of getServices; the store's objects that pass baseCheck are services
listed_services :
    Runtime → Client → Config → Store → Store → List Object → List Service → Outcome (List Service)
unfolding get_service_namespace get_service_name
listed_services rt c cfg services_store endpoint_store [] topo = done topo
listed_services rt c cfg services_store endpoint_store (obj ∷ rest) topo =
    let skipped = listed_services rt c cfg services_store endpoint_store rest topo in
    let (namespace, err) = get_service_namespace obj in
    let (service_name, err') = get_service_name obj in
    let added =
      get_service_network_topo rt c cfg services_store endpoint_store
        (namespace ⧺ "/" ⧺ service_name)
      >>= λ more. listed_services rt c cfg services_store endpoint_store rest (topo ++ more) in
    if not (base_check cfg obj)
    then skipped
    else elim err [ some e ↦ skipped | none ↦ elim err' [ some e ↦ skipped | none ↦ added ] ]

-- getServices
unfoldable pub get_services : Runtime → Client → Config → Store → Store → Outcome (List Service)
unfolding listed_services service_by_name
get_services rt c cfg services_store endpoint_store = do
  topo ← listed_services rt c cfg services_store endpoint_store services_store.list []
  done (rt.sort Service service_by_name topo)
