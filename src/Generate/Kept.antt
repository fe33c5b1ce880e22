-- ===== src/Generate/Kept.antt =====
-- The generation of a configuration keeps the state of the Configurator well formed.
use lbex.Prelude.{sym, subst, ◌∙◌, ap, List, [], ◌∷◌, arith, eq_iff}
use lbex.Prelude.Dict.{get, put, get-delete, IsMap, delete-IsMap}
use lbex.Runtime.{Runtime, after_range}
use lbex.Nginx.{Target, ServiceSpec}
use lbex.Configurator.{State}
use lbex.Configurator.Invariant.{IsWellFormed}
use lbex.Streams.{
  host_upstream, all_upstream, set_upstream_nodes, add_upstream_target, create_stream_upstream,
}
use lbex.Generate.{Draft, draft, generate_stream_nginx_config}
use lbex.Generate.Upstreams.{nodes-create_stream_upstream}

create_stream_upstream-IsWellFormed :
    (rt : Runtime) (svc : ServiceSpec) (t : Target) (st : State)
    → IsWellFormed st
    → IsWellFormed (create_stream_upstream rt svc t st).1
unfolding create_stream_upstream host_upstream all_upstream set_upstream_nodes add_upstream_target
    put
create_stream_upstream-IsWellFormed rt svc t st w = record {
  nodes_map = subst IsMap (sym (nodes-create_stream_upstream rt svc t st)) w.nodes_map;
  upstream_nodes_map = ground (
    arith,
    eq_iff svc.key svc.key,
    get-delete svc.key svc.key st.service_upstream_nodes,
    delete-IsMap svc.key st.service_upstream_nodes w.upstream_nodes_map,
    w.upstream_nodes_map,
  );
  upstream_target_map = ground (
    arith,
    eq_iff svc.key svc.key,
    get-delete svc.key svc.key st.service_upstream_target,
    delete-IsMap svc.key st.service_upstream_target w.upstream_target_map,
    w.upstream_target_map,
  );
  keyed =
      λ key n h. w.keyed key n (ap (get key) (sym (nodes-create_stream_upstream rt svc t st)) ∙ h);
}

draft-IsWellFormed :
    (rt : Runtime) (svc : ServiceSpec) (ts : List Target) (d : Draft) (st : State)
    → IsWellFormed st
    → IsWellFormed (draft rt svc ts d st).1
unfolding draft
draft-IsWellFormed rt svc [] d st w = w
draft-IsWellFormed rt svc (t ∷ ts) d st w =
    draft-IsWellFormed (after_range rt) svc ts _ _
      (create_stream_upstream-IsWellFormed rt svc t st w)

pub generate-IsWellFormed :
    (rt : Runtime) (svc : ServiceSpec) (st : State)
    → IsWellFormed st
    → IsWellFormed (generate_stream_nginx_config rt svc st).1
unfolding generate_stream_nginx_config
generate-IsWellFormed rt svc st w = draft-IsWellFormed rt svc svc.topology _ st w
