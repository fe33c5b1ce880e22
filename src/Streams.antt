-- ===== src/Streams.antt =====
-- nginx/configurator.go, the functions that make the stream upstream of one target: its name, its
-- servers, and what they record for the service.
use lbex.Prelude.{String, false, Option, none, some, List, [], ◌∷◌, ◌++◌, map, ◌==◌, if◌then◌else◌}
use Prim.Native.String.{◌++◌ as ◌⧺◌}
use lbex.Prelude.Text.{itoa}
use lbex.Prelude.Dict.{get, put}
use lbex.Runtime.{Runtime}
use lbex.K8s.{v1_service, V1Service}
use lbex.Annotations.{lbex_node_set, lbex_node_address_type, get_optional_string_annotation}
use lbex.Nginx.{Node, Target, ServiceSpec, StreamUpstreamServer, StreamUpstream}
use lbex.Nginx.Options.{
  host_node, pod, cluster_ip, host, all_nodes, internal, validate_node_set,
  validate_node_address_type,
}
use lbex.Configurator.{State}

abbrev pub single_default_port_name : String
single_default_port_name = "unnamed"

-- getNameForStreamUpstream
unfoldable pub get_name_for_stream_upstream : V1Service → String → String
get_name_for_stream_upstream svc port_name =
    let used = if port_name == "" then single_default_port_name else port_name in
    svc.namespace ⧺ "-" ⧺ svc.name ⧺ "-" ⧺ used

-- formatAddress
unfoldable pub format_address : String → Node → Target → String
format_address addr_type node target =
    if addr_type == internal
    then node.internal_ip ⧺ ":" ⧺ itoa target.node_port
    else node.external_ip ⧺ ":" ⧺ itoa target.node_port

abbrev pub server_at : String → StreamUpstreamServer
server_at address = record {
  address = address;
  weight = "";
  max_conns = "";
  max_fails = "";
  fail_timeout = "";
  backup = false;
  down = false;
}

abbrev pub upstream_with : String → List StreamUpstreamServer → StreamUpstream
upstream_with name servers = record {
  name = name;
  algorithm = "";
  least_time_method = "";
  upstream_servers = servers;
}

-- serviceUpstreamTarget[spec.Key] = append(serviceUpstreamTarget[spec.Key], target)
abbrev or_nil {ℓ} : {A : Type ℓ} → Option (List A) → List A
or_nil none = []
or_nil (some xs) = xs

unfoldable pub add_upstream_target : ServiceSpec → Target → State → State
add_upstream_target spec target st = record st {
  service_upstream_target =
      put spec.key (or_nil (get spec.key st.service_upstream_target) ++ target ∷ [])
        st.service_upstream_target;
}

-- createClusterStreamUpstream
unfoldable pub create_cluster_stream_upstream :
    ServiceSpec → Target → State → StreamUpstream × State
unfolding add_upstream_target
create_cluster_stream_upstream spec target st = (
  upstream_with (get_name_for_stream_upstream spec.service target.port_name)
      (server_at (spec.cluster_ip ⧺ ":" ⧺ itoa target.service_port) ∷ []),
  add_upstream_target spec target st,
)

-- createPodStreamUpstream
unfoldable pub create_pod_stream_upstream : ServiceSpec → Target → State → StreamUpstream × State
unfolding add_upstream_target
create_pod_stream_upstream spec target st = (
  upstream_with (get_name_for_stream_upstream spec.service target.port_name)
      (server_at (target.pod_ip ⧺ ":" ⧺ itoa target.pod_port) ∷ []),
  add_upstream_target spec target st,
)

abbrev pub node_set_of : V1Service → String
node_set_of svc =
    validate_node_set (get_optional_string_annotation lbex_node_set (v1_service svc)).0

abbrev pub address_type_of : V1Service → String
address_type_of svc =
    validate_node_address_type
      (get_optional_string_annotation lbex_node_address_type (v1_service svc)).0

unfoldable pub set_upstream_nodes : ServiceSpec → List Node → State → State
set_upstream_nodes spec upstream_nodes st = record st {
  service_upstream_nodes = put spec.key upstream_nodes st.service_upstream_nodes;
}

-- the case `Host`: the node that the target is on, if the cache has it
unfoldable pub host_upstream :
    ServiceSpec → Target → String → State → List StreamUpstreamServer × State
unfolding set_upstream_nodes format_address
host_upstream spec target address_type st = elim (get target.node_name st.nodes) [
  | none ↦ ([], st)
  | some node ↦ (
    server_at (format_address address_type node target) ∷ [],
    set_upstream_nodes spec (node ∷ []) st,
  )
]

-- the case `All`: every node of the cache, in the order of the range
unfoldable pub all_upstream :
    Runtime → ServiceSpec → Target → String → State → List StreamUpstreamServer × State
unfolding set_upstream_nodes format_address
all_upstream rt spec target address_type st =
    let visited = map (λ (entry : String × Node). entry.1) (rt.visit Node 0 st.nodes) in
    (
      map (λ node. server_at (format_address address_type node target)) visited,
      set_upstream_nodes spec visited st,
    )

-- createNodesStreamUpstream
unfoldable pub create_nodes_stream_upstream :
    Runtime → ServiceSpec → Target → State → StreamUpstream × State
unfolding host_upstream all_upstream
create_nodes_stream_upstream rt spec target st =
    let set = node_set_of spec.service in
    let address_type = address_type_of spec.service in
    let name = get_name_for_stream_upstream spec.service target.port_name in
    let (servers, st') =
      (if set == host
        then host_upstream spec target address_type st
        else if set == all_nodes
        then all_upstream rt spec target address_type st
        else ([], st)) in
    (upstream_with name servers, st')

-- the switch on the upstream type; its default leaves the zero value
unfoldable pub create_stream_upstream :
    Runtime → ServiceSpec → Target → State → StreamUpstream × State
unfolding create_nodes_stream_upstream create_pod_stream_upstream create_cluster_stream_upstream
create_stream_upstream rt svc target st =
    if svc.upstream_type == host_node
    then create_nodes_stream_upstream rt svc target st
    else if svc.upstream_type == pod
    then create_pod_stream_upstream svc target st
    else if svc.upstream_type == cluster_ip
    then create_cluster_stream_upstream svc target st
    else (upstream_with "" [], st)
