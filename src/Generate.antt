-- ===== src/Generate.antt =====
-- nginx/configurator.go, generateStreamNginxConfig and the functions that it calls: from a service
-- to an NGINX stream configuration.
pub mod Upstreams
pub mod Round
pub mod Loop
pub mod Servers
pub mod Gather
pub mod Frame
pub mod Unnamed
pub mod Recorded
pub mod Kept
pub mod Result
use lbex.Prelude.{
  String, Bool, true, false, not, Option, none, some, List, [], ◌∷◌, ◌++◌, map, ◌==◌, if◌then◌else◌,
}
use Prim.Native.String.{◌++◌ as ◌⧺◌}
use lbex.Prelude.Int.{ℤ}
use lbex.Prelude.Text.{itoa, equal_fold}
use lbex.Prelude.Dict.{Dict, get, put}
use lbex.Runtime.{Runtime, after_range}
use lbex.K8s.{v1_service, V1Service}
use lbex.Annotations.{
  Error, lbex_resolver_key, lbex_method_key, lbex_ip_passthrough, lbex_node_set,
  lbex_node_address_type, lbex_port_annotation_base, get_int_annotation,
  get_optional_string_annotation, get_optional_bool_annotation,
}
use lbex.Nginx.{
  Node, Target, ServiceSpec, StreamUpstreamServer, StreamUpstream, StreamServer, StreamNginxConfig,
}
use lbex.Nginx.Options.{
  round_robin, lowest_latency, host_node, pod, cluster_ip, host, all_nodes, internal,
  validate_method, validate_node_set, validate_node_address_type,
}
use lbex.Configurator.{State}
use lbex.Streams.{
  get_name_for_stream_upstream, format_address, server_at, upstream_with, add_upstream_target,
  create_cluster_stream_upstream, create_pod_stream_upstream, node_set_of, address_type_of,
  set_upstream_nodes, host_upstream, all_upstream, create_nodes_stream_upstream,
  create_stream_upstream,
}

abbrev pub udp_proto : String
udp_proto = "udp"

-- The algorithm and the method of a new upstream. Round robin is not written, since NGINX knows no
-- directive for it.
unfoldable pub with_algorithm : ServiceSpec → StreamUpstream → StreamUpstream
with_algorithm svc upstream =
    let chosen =
      (if not (svc.algorithm == round_robin)
        then record upstream { algorithm = svc.algorithm }
        else upstream) in
    if chosen.algorithm == lowest_latency
    then record chosen {
      least_time_method =
          validate_method
            (get_optional_string_annotation lbex_method_key (v1_service svc.service)).0;
    }
    else chosen

unfoldable pub port_annotation : Target → String
port_annotation target = lbex_port_annotation_base ⧺ target.port_name

-- The server of a new upstream; without a number in the annotation there is none (`continue`).
listening : ServiceSpec → Target → String → ℤ × Option Error → List StreamServer
listening svc target name (listen_port, some err) = []
listening svc target name (listen_port, none) =
    record {
      listen = record {
        address = "";
        port = itoa listen_port;
        udp = equal_fold target.protocol udp_proto;
      };
      proxy_protocol = false;
      proxy_passthrough =
          (get_optional_bool_annotation lbex_ip_passthrough (v1_service svc.service)).0;
      proxy_protocol_timeout = "";
      proxy_pass_address = name;
    }
    ∷ []

unfoldable pub new_servers : ServiceSpec → Target → String → List StreamServer
unfolding port_annotation listening
new_servers svc target name =
    listening svc target name (get_int_annotation (port_annotation target) (v1_service svc.service))

-- What the loop over the topology builds: the map of upstreams and the servers.
pub record Draft : Type 0 where
  pub upstreams : Dict StreamUpstream
  pub servers : List StreamServer

-- one round, given what the map has under the upstream's name: a new upstream with its server, or
-- more servers for the upstream that is there
insert_upstream : ServiceSpec → Target → StreamUpstream → Draft → Option StreamUpstream → Draft
unfolding with_algorithm new_servers
insert_upstream svc target upstream d none = record {
  upstreams = put upstream.name (with_algorithm svc upstream) d.upstreams;
  servers = d.servers ++ new_servers svc target upstream.name;
}
insert_upstream svc target upstream d (some elem') = record d {
  upstreams =
      put upstream.name
        (record elem' { upstream_servers = elem'.upstream_servers ++ upstream.upstream_servers })
        d.upstreams;
}

unfoldable pub add_upstream : ServiceSpec → Target → StreamUpstream → Draft → Draft
unfolding insert_upstream
add_upstream svc target upstream d =
    insert_upstream svc target upstream d (get upstream.name d.upstreams)

-- the loop over the topology; each target has a range of its own over the nodes
unfoldable pub draft : Runtime → ServiceSpec → List Target → Draft → State → Draft × State
unfolding create_stream_upstream add_upstream
draft rt svc [] d st = (d, st)
draft rt svc (target ∷ rest) d st =
    let (upstream, st') = create_stream_upstream rt svc target st in
    draft (after_range rt) svc rest (add_upstream svc target upstream d) st'

abbrev pub resolver_of : String × Bool → String
resolver_of (val, true) = val
resolver_of (val, false) = ""

-- generateStreamNginxConfig
unfoldable pub generate_stream_nginx_config :
    Runtime → ServiceSpec → State → StreamNginxConfig × State
unfolding draft
generate_stream_nginx_config rt svc st =
    let (d, st') = draft rt svc svc.topology (record { upstreams = []; servers = [] }) st in
    (
      record {
        resolver =
            resolver_of (get_optional_string_annotation lbex_resolver_key (v1_service svc.service));
        upstreams =
            map (λ (entry : String × StreamUpstream). entry.1)
              (rt.visit StreamUpstream 0 d.upstreams);
        servers = d.servers;
      },
      st',
    )
