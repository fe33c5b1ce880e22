-- ===== src/Publish.antt =====
-- nginx/configurator.go, AddOrUpdateService, UpdateServiceEndpoints and DeleteConfiguration: what
-- the controller asks for, from the specification of a service to the files that NGINX reads.
pub mod Laws
pub mod Kept
pub mod Stored
use lbex.Prelude.{String, Bool, true, false, not, ◌&&◌, Option, none, some, if◌then◌else◌}
use Prim.Native.String.{◌++◌ as ◌⧺◌}
use lbex.Prelude.Dict.{delete}
use lbex.Outcome.{Outcome, done, halt}
use lbex.Runtime.{Runtime}
use lbex.Nginx.{ServiceSpec}
use lbex.Nginx.Control.{
  Configuration, stream_cfg, http_cfg, stream_http_cfg, World, Os, NginxController, is_local,
  join_path, add_or_update_stream, delete_stream_configuration, reload,
}
use lbex.Nginx.Files.{delete_http_configuration}
use lbex.Configurator.{State}
use lbex.Generate.{generate_stream_nginx_config}

-- `cfgType == StreamCfg || cfgType == StreamHTTPCfg`, which the operations on services ask for
unfoldable pub has_stream : Configuration → Bool
has_stream stream_cfg = true
has_stream stream_http_cfg = true
has_stream _ = false

module _ (os : Os) where
  -- the switch of DeleteConfiguration
  unfoldable pub delete_files : NginxController → String → Configuration → World → World
  unfolding delete_stream_configuration delete_http_configuration
  delete_files ngxc name stream_cfg w = delete_stream_configuration os ngxc name w
  delete_files ngxc name http_cfg w = delete_http_configuration os ngxc name w
  delete_files ngxc name stream_http_cfg w =
      delete_http_configuration os ngxc name (delete_stream_configuration os ngxc name w)
  delete_files ngxc name _ w = w

  -- DeleteConfiguration; an error of the reload is only logged
  unfoldable pub delete_configuration : String → Configuration → State → State
  unfolding delete_files delete reload
  delete_configuration name cfg_type st = record st {
    service_upstream_nodes = delete name st.service_upstream_nodes;
    service_upstream_target = delete name st.service_upstream_target;
    world = (reload os st.ngxc (delete_files st.ngxc name cfg_type st.world)).1;
  }

  -- the end of AddOrUpdateService, once the file is written; an error of the reload is only logged
  reload_after : State → Outcome {0} Unit × World → Outcome (Option String) × State
  unfolding reload
  reload_after st (done written, w) = (done none, record st { world = (reload os st.ngxc w).1 })
  reload_after st (halt stop, w) = (halt stop, record st { world = w })

  -- AddOrUpdateService
  unfoldable pub add_or_update_service :
      Runtime → ServiceSpec → State → Outcome (Option String) × State
  unfolding has_stream generate_stream_nginx_config add_or_update_stream reload_after
  add_or_update_service rt svc st =
      if not (has_stream st.ngxc.cfg_type)
      then (done (some "addOrUpdateService: I'm sorry Dave, I'm afraid I can't do that"), st)
      else let (nginx_cfg, st') = generate_stream_nginx_config rt svc st in
        reload_after st' (add_or_update_stream os st.ngxc svc.config_name nginx_cfg st'.world)

  -- UpdateServiceEndpoints; the error of AddOrUpdateService is dropped
  unfoldable pub update_service_endpoints :
      Runtime → ServiceSpec → State → Outcome (Option String) × State
  unfolding has_stream add_or_update_service
  update_service_endpoints rt svc st =
      if not (has_stream st.ngxc.cfg_type)
      then (done (some "updateServiceEndpoints: I'm sorry Dave, I'm afraid I can't do that"), st)
      else let (r, st') = add_or_update_service rt svc st in
        (elim r [ done dropped ↦ done none | halt stop ↦ halt stop ], st')
