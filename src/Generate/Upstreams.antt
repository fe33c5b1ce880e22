-- ===== src/Generate/Upstreams.antt =====
-- One round of the loop of generateStreamNginxConfig: the upstream of a target, and what it does to
-- the map of upstreams.
use lbex.Prelude.{String, ◌≡◌, Option, none, some, ◌++◌, ◌||◌, arith, ◌==◌, if◌then◌else◌}
use lbex.Prelude.Dict.{get, get-put, IsMap, put-IsMap}
use lbex.Runtime.{Runtime}
use lbex.Nginx.{Target, ServiceSpec, StreamUpstream}
use lbex.Configurator.{State}
use lbex.Streams.{get_name_for_stream_upstream, create_stream_upstream}
use lbex.Nginx.Options.{host_node, pod, cluster_ip}
use Prim.Native.String.{◌++◌ as ◌⧺◌}
use lbex.Generate.{with_algorithm, Draft, insert_upstream, add_upstream}

-- The upstream that a target gives, in a state with the nodes of `st`.
abbrev pub upstream_of : Runtime → ServiceSpec → State → Target → StreamUpstream
upstream_of rt svc st target = (create_stream_upstream rt svc target st).0

-- The name of a target's upstream: those of the service and of the port, and `unnamed` for a port
-- without a name. The switch has no case for another type of upstream.
abbrev pub upstream_name : ServiceSpec → Target → String
upstream_name svc target =
    if svc.upstream_type == host_node || svc.upstream_type == pod || svc.upstream_type == cluster_ip
    then svc.service.namespace
      ⧺ "-"
      ⧺ svc.service.name
      ⧺ "-"
      ⧺ (if target.port_name == "" then "unnamed" else target.port_name)
    else ""

-- The name depends neither on the runtime nor on the state.
pub upstream_of-name :
    (rt : Runtime) (svc : ServiceSpec) (target : Target) (st : State)
    → (upstream_of rt svc st target).name ≡ upstream_name svc target
unfolding create_stream_upstream get_name_for_stream_upstream
upstream_of-name rt svc target st = ground arith

-- Making an upstream leaves the node cache as it is,
pub nodes-create_stream_upstream :
    (rt : Runtime) (svc : ServiceSpec) (target : Target) (st : State)
    → (create_stream_upstream rt svc target st).1.nodes ≡ st.nodes
unfolding create_stream_upstream
nodes-create_stream_upstream rt svc target st = ground arith

-- and depends on nothing else of the state.
pub upstream_of-nodes :
    (rt : Runtime) (svc : ServiceSpec) (target : Target) (st st' : State)
    → st.nodes ≡ st'.nodes
    → upstream_of rt svc st target ≡ upstream_of rt svc st' target
unfolding create_stream_upstream
upstream_of-nodes rt svc target st st' e = ground arith

-- What stands in the map under the name of an upstream, once the upstream is added.
abbrev pub merged : ServiceSpec → StreamUpstream → Option StreamUpstream → StreamUpstream
merged svc upstream none = with_algorithm svc upstream
merged svc upstream (some elem') = record elem' {
  upstream_servers = elem'.upstream_servers ++ upstream.upstream_servers;
}

pub get-add_upstream :
    (svc : ServiceSpec) (target : Target) (upstream : StreamUpstream) (d : Draft) (j : String)
    → get j (add_upstream svc target upstream d).upstreams ≡ (
        if upstream.name == j
        then some (merged svc upstream (get upstream.name d.upstreams))
        else get j d.upstreams)
unfolding add_upstream
get-add_upstream svc target upstream d j = by_present (get upstream.name d.upstreams)
  where
    by_present :
        (o : Option StreamUpstream)
        → get j (insert_upstream svc target upstream d o).upstreams
          ≡ (if upstream.name == j then some (merged svc upstream o) else get j d.upstreams)
    by_present none = get-put upstream.name j _ d.upstreams
    by_present (some elem') = get-put upstream.name j _ d.upstreams

pub add_upstream-IsMap :
    (svc : ServiceSpec) (target : Target) (upstream : StreamUpstream) (d : Draft)
    → IsMap d.upstreams
    → IsMap (add_upstream svc target upstream d).upstreams
unfolding add_upstream
add_upstream-IsMap svc target upstream d h = by_present (get upstream.name d.upstreams)
  where
    by_present :
        (o : Option StreamUpstream) → IsMap (insert_upstream svc target upstream d o).upstreams
    by_present none = put-IsMap _ _ d.upstreams h
    by_present (some elem') = put-IsMap _ _ d.upstreams h

-- Choosing the algorithm changes neither the name nor the servers.
pub with_algorithm-keeps :
    (svc : ServiceSpec) (u : StreamUpstream)
    → ((with_algorithm svc u).name ≡ u.name)
      × ((with_algorithm svc u).upstream_servers ≡ u.upstream_servers)
unfolding with_algorithm
with_algorithm-keeps svc u = ground arith
