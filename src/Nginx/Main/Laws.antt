-- ===== src/Nginx/Main/Laws.antt =====
-- What NewNginxController and UpdateMainConfigFile of nginx/nginx.go leave.
use lbex.Prelude.{
  String, Bool, true, false, ◌≡◌, refl, sym, ◌∙◌, ap, subst, some, [], ◌∷◌, ◌++◌, arith,
  if◌then◌else◌,
}
use lbex.Prelude.Int.{ℤ}
use lbex.Prelude.Dict.{put}
use lbex.Outcome.{done, done-injective}
use lbex.Nginx.Context.{NginxMainConfig}
use lbex.Nginx.Control.{
  Configuration, local_cfg, stream_cfg, http_cfg, stream_http_cfg, unknown_cfg, main_conf, World,
  Os, NginxController, Act, ◌>>◌, pure, is_local, join_path, write_file,
}
use lbex.Nginx.Files.Laws.{act-done}
use lbex.Nginx.Main.{
  main_conf_filename, clean_dir, initial_main_config, default_contexts, with_health,
  update_main_config_file, create_dir, make_certs_dir, new_nginx_controller,
}

-- When UpdateMainConfigFile ends, in a controller that is not local, it has written the main
-- configuration to its file, and nothing else.
pub update_main_config_file_lem :
    (os : Os) (ngxc : NginxController) (w w' : World)
    → is_local ngxc.cfg_type ≡ false
    → update_main_config_file os ngxc w ≡ (done tt, w')
    → (record w { files = put main_conf_filename (main_conf ngxc.main_cfg) w.files }) ≡ w'
unfolding update_main_config_file write_file
update_main_config_file_lem os ngxc w w' remote h = ground (arith, remote, h)

abbrev pub is_stream : Configuration → Bool
is_stream stream_cfg = true
is_stream _ = false

abbrev pub is_http : Configuration → Bool
is_http http_cfg = true
is_http _ = false

-- The main configuration of a new controller, in full.
abbrev pub main_for : Configuration → Bool → ℤ → NginxMainConfig
main_for cfg_type health_check health_port = record {
  daemon = true;
  error_log_file = "/var/log/nginx/error.log";
  error_log_level = "warn";
  environment = [];
  lock_file = "";
  pid_file = "/var/run/nginx.pid";
  user = "root";
  group = "root";
  worker_priority = "";
  worker_processes = "2";
  working_directory = "";
  event_context = record {
    accept_mutex = false;
    accept_mutex_delay = "";
    multi_accept = false;
    worker_connections = "";
  };
  default_stream_context = is_stream cfg_type;
  default_http_context = is_http cfg_type;
  http_context = record {
    server_names_hash_bucket_size = "";
    server_names_hash_max_size = if is_http cfg_type then "512" else "";
    log_format = "";
    health_status = health_check;
    health_port = health_port;
    http_snippets = [];
    ssl_protocols = "";
    ssl_prefer_server_ciphers = false;
    ssl_ciphers = "";
    ssl_dh_param = "";
  };
}

abbrev pub IsMain : Configuration → Bool → ℤ → NginxMainConfig → Type 0
IsMain cfg_type health_check health_port cfg = cfg ≡ main_for cfg_type health_check health_port

abbrev new_main : Configuration → Bool → ℤ → NginxMainConfig
new_main c check port = with_health check port (default_contexts c initial_main_config)

new_main-IsMain :
    (c : Configuration) (check : Bool) (port : ℤ) → IsMain c check port (new_main c check port)
unfolding with_health default_contexts
new_main-IsMain local_cfg check port = refl
new_main-IsMain stream_cfg check port = refl
new_main-IsMain http_cfg check port = refl
new_main-IsMain stream_http_cfg check port = refl
new_main-IsMain unknown_cfg check port = refl

abbrev pub with_certs_dir : Configuration → String → World → World
with_certs_dir c path w =
    if is_http c then record w { directories = w.directories ++ path ∷ [] } else w

make_certs_dir_lem :
    (os : Os) (c : Configuration) (path : String) (w w' : World)
    → make_certs_dir os c path w ≡ (done tt, w')
    → with_certs_dir c path w ≡ w'
unfolding create_dir
make_certs_dir_lem os http_cfg path w w' h = ground (arith, h)
make_certs_dir_lem os local_cfg path w w' h = ap (λ r. r.1) h
make_certs_dir_lem os stream_cfg path w w' h = ap (λ r. r.1) h
make_certs_dir_lem os stream_http_cfg path w w' h = ap (λ r. r.1) h
make_certs_dir_lem os unknown_cfg path w w' h = ap (λ r. r.1) h

-- What NewNginxController returns and leaves.
pub record IsCreated (c : Configuration) (path : String) (check : Bool) (port : ℤ) (w w' : World)
    (ngxc : NginxController) : Type 0 where
  pub confd : ngxc.nginx_confd_path ≡ join_path (clean_dir path) "conf.d"
  pub certs : ngxc.nginx_certs_path ≡ join_path (clean_dir path) "ssl"
  pub type : ngxc.cfg_type ≡ c
  pub main : (cfg : NginxMainConfig) × (ngxc.main_cfg ≡ some cfg) × IsMain c check port cfg
  pub world :
      (let before = with_certs_dir c ngxc.nginx_certs_path w in
        record before { files = put main_conf_filename (main_conf ngxc.main_cfg) before.files })
      ≡ w'

module _ (os : Os) (c : Configuration) (path : String) (check : Bool) (port : ℤ) where
  abbrev certs : String
  certs = join_path (clean_dir path) "ssl"

  abbrev created : NginxController
  created = record {
    nginx_confd_path = join_path (clean_dir path) "conf.d";
    nginx_certs_path = certs;
    cfg_type = c;
    main_cfg = some (new_main c check port);
  }

  abbrev files_made : Act Unit
  files_made = make_certs_dir os c certs >> update_main_config_file os created

  remote_run :
      (w : World)
      → is_local c ≡ false
      → new_nginx_controller os c path check port w ≡ (files_made >> pure created) w
  unfolding new_nginx_controller
  remote_run w remote = rw (new_nginx_controller, remote) refl

-- When NewNginxController ends, for a type that is not local, the main file of NGINX holds the new
-- main configuration: the defaults, with the health settings that are given, with the default context
-- for streams only for the type StreamCfg, and with the one for HTTP and a size for the hash of server
-- names only for the type HTTPCfg, so that the type StreamHTTPCfg has none of these; and the directory
-- for certificates is made for HTTPCfg only.
pub new_nginx_controller_lem :
    (os : Os) (c : Configuration) (path : String) (check : Bool) (port : ℤ) (w w' : World)
    (ngxc : NginxController)
    → is_local c ≡ false
    → new_nginx_controller os c path check port w ≡ (done ngxc, w')
    → IsCreated c path check port w w' ngxc
new_nginx_controller_lem os c path check port w w' ngxc remote h =
    let (_, w2, e2, f2) =
      act-done (files_made os c path check port) (λ u. pure (created os c path check port)) ngxc w
        w' (sym (remote_run os c path check port w remote) ∙ h) in
    let (_, w1, e1, f1) =
      act-done (make_certs_dir os c _)
        (λ u. update_main_config_file os (created os c path check port)) tt w w2 e2 in
    subst (IsCreated c path check port w w') (done-injective (ap (λ r. r.0) f2)) (record {
      confd = refl;
      certs = refl;
      type = refl;
      main = (new_main c check port, refl, new_main-IsMain c check port);
      world =
          ap
            (λ (v : World). record v {
              files = put main_conf_filename (main_conf (some (new_main c check port))) v.files;
            })
            (make_certs_dir_lem os c _ w w1 e1)
          ∙ (update_main_config_file_lem os (created os c path check port) w1 w2 remote f1
              ∙ ap (λ r. r.1) f2);
    })
