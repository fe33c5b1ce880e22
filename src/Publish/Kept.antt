-- ===== src/Publish/Kept.antt =====
-- AddOrUpdateService and DeleteConfiguration keep the state of the Configurator well formed.
use lbex.Prelude.{String, some, not, true, false, Bool, if◌then◌else◌}
use lbex.Prelude.Dict.{delete-IsMap}
use lbex.Outcome.{Outcome, done, halt}
use lbex.Runtime.{Runtime}
use lbex.Nginx.{ServiceSpec}
use lbex.Nginx.Control.{Configuration, World, Os, add_or_update_stream}
use lbex.Configurator.{State}
use lbex.Configurator.Invariant.{IsWellFormed}
use lbex.Generate.{generate_stream_nginx_config}
use lbex.Generate.Kept.{generate-IsWellFormed}
use lbex.Publish.{has_stream, reload_after, add_or_update_service, delete_configuration}

with_world : (st : State) (w : World) → IsWellFormed st → IsWellFormed (record st { world = w })
with_world st w h = record {
  nodes_map = h.nodes_map;
  upstream_nodes_map = h.upstream_nodes_map;
  upstream_target_map = h.upstream_target_map;
  keyed = h.keyed;
}

reload_after-IsWellFormed :
    (os : Os) (st : State) (r : Outcome {0} Unit × World)
    → IsWellFormed st
    → IsWellFormed (reload_after os st r).1
unfolding reload_after
reload_after-IsWellFormed os st (done written, w) h = with_world st _ h
reload_after-IsWellFormed os st (halt stop, w) h = with_world st w h

pub add_or_update_service-IsWellFormed :
    (os : Os) (rt : Runtime) (svc : ServiceSpec) (st : State)
    → IsWellFormed st
    → IsWellFormed (add_or_update_service os rt svc st).1
unfolding add_or_update_service
add_or_update_service-IsWellFormed os rt svc st h = by_type (has_stream st.ngxc.cfg_type)
  where
    by_type :
        (b : Bool)
        → IsWellFormed
            (if not b
              then (
                done (some "addOrUpdateService: I'm sorry Dave, I'm afraid I can't do that"),
                st,
              )
              else reload_after os (generate_stream_nginx_config rt svc st).1 (
                  add_or_update_stream os st.ngxc svc.config_name
                    (generate_stream_nginx_config rt svc st).0
                    (generate_stream_nginx_config rt svc st).1.world)).1
    by_type false = h
    by_type true = reload_after-IsWellFormed os _ _ (generate-IsWellFormed rt svc st h)

pub delete_configuration-IsWellFormed :
    (os : Os) (name : String) (cfg_type : Configuration) (st : State)
    → IsWellFormed st
    → IsWellFormed (delete_configuration os name cfg_type st)
unfolding delete_configuration
delete_configuration-IsWellFormed os name cfg_type st h = record {
  nodes_map = h.nodes_map;
  upstream_nodes_map = delete-IsMap name st.service_upstream_nodes h.upstream_nodes_map;
  upstream_target_map = delete-IsMap name st.service_upstream_target h.upstream_target_map;
  keyed = h.keyed;
}
