-- ===== src/Nginx/Main.antt =====
-- The main configuration file in nginx/nginx.go: NewNginxController and UpdateMainConfigFile.
pub mod Laws
use lbex.Prelude.{
  String, Bool, true, false, not, Option, none, some, List, ◌++◌, nat_beq, ◌&&◌, ◌==◌,
  if◌then◌else◌,
}
use Prim.Native.Char.{code}
use Prim.Native.String.{[], ◌∷◌}
use mathlib.Core.List.{[] as nil, ◌∷◌ as ◌◂◌}
use lbex.Prelude.Int.{ℤ, pos}
use lbex.Outcome.{done, halt, fatal}
use lbex.Nginx.Context.{NginxMainConfig, NginxMainHttpConfig, new_default_http_context}
use lbex.Nginx.Control.{
  Configuration, stream_cfg, http_cfg, main_conf, Os, NginxController, Act, ◌>>◌, pure, is_local,
  join_path, write_file,
}

abbrev pub main_conf_filename : String
main_conf_filename = "/etc/nginx/nginx.conf"

-- path.Clean of a path that is not the root and has no excess but slashes at its end
unfoldable pub clean_dir : String → String
clean_dir [] = []
clean_dir (c ∷ s) =
    let rest = clean_dir s in if nat_beq (code c) b'/' && rest == "" then "" else c ∷ rest

-- the zero value of NginxMainHTTPConfig
abbrev no_http_context : NginxMainHttpConfig
no_http_context = record {
  server_names_hash_bucket_size = "";
  server_names_hash_max_size = "";
  log_format = "";
  health_status = false;
  health_port = pos 0;
  http_snippets = nil;
  ssl_protocols = "";
  ssl_prefer_server_ciphers = false;
  ssl_ciphers = "";
  ssl_dh_param = "";
}

-- the literal in NewNginxController
abbrev pub initial_main_config : NginxMainConfig
initial_main_config = record {
  daemon = true;
  error_log_file = "/var/log/nginx/error.log";
  error_log_level = "warn";
  environment = nil;
  lock_file = "";
  pid_file = "/var/run/nginx.pid";
  user = "root";
  group = "root";
  worker_priority = "";
  worker_processes = "2";
  working_directory = "";
  event_context = record {
    accept_mutex = false;
    accept_mutex_delay = "";
    multi_accept = false;
    worker_connections = "";
  };
  default_stream_context = false;
  default_http_context = false;
  http_context = no_http_context;
}

-- the switch of NewNginxController, without the call of createDir
unfoldable pub default_contexts : Configuration → NginxMainConfig → NginxMainConfig
default_contexts stream_cfg cfg = record cfg {
  default_stream_context = true;
  default_http_context = false;
}
default_contexts http_cfg cfg = record cfg {
  default_stream_context = false;
  default_http_context = true;
  http_context = record cfg.http_context {
    server_names_hash_max_size = new_default_http_context.main_server_names_hash_max_size;
  };
}
default_contexts _ cfg = cfg

unfoldable pub with_health : Bool → ℤ → NginxMainConfig → NginxMainConfig
with_health health_check health_port cfg = record cfg {
  http_context = record cfg.http_context {
    health_status = health_check;
    health_port = health_port;
  };
}

module _ (os : Os) where
  -- UpdateMainConfigFile
  unfoldable pub update_main_config_file : NginxController → Act Unit
  unfolding is_local write_file
  update_main_config_file ngxc w =
      if not (os.can_parse w "nginx.conf.tmpl")
      then (halt (fatal "Failed to parse the main config template file"), w)
      else if not (is_local ngxc.cfg_type)
      then write_file os main_conf_filename (main_conf ngxc.main_cfg) w
      else (done tt, w)

  -- createDir
  unfoldable pub create_dir : String → Act Unit
  create_dir path w =
      if os.can_make_dir w path
      then (done tt, record w { directories = w.directories ++ path ◂ nil })
      else (halt (fatal "Couldn't create directory"), w)

  abbrev make_certs_dir : Configuration → String → Act Unit
  make_certs_dir http_cfg path = create_dir path
  make_certs_dir _ path = pure tt

  -- NewNginxController; its error is always nil
  unfoldable pub new_nginx_controller : Configuration → String → Bool → ℤ → Act NginxController
  unfolding is_local default_contexts clean_dir with_health join_path create_dir
      update_main_config_file write_file
  new_nginx_controller cfg_type nginx_conf_path health_check health_port =
      let ngxc : NginxController = record {
        nginx_confd_path = join_path (clean_dir nginx_conf_path) "conf.d";
        nginx_certs_path = join_path (clean_dir nginx_conf_path) "ssl";
        cfg_type = cfg_type;
        main_cfg = none;
      } in
      let cfg =
        with_health health_check health_port (default_contexts cfg_type initial_main_config) in
      let ngxc' : NginxController = record ngxc { main_cfg = some cfg } in
      if not (is_local cfg_type)
      then make_certs_dir cfg_type ngxc.nginx_certs_path
        >> update_main_config_file ngxc'
        >> pure ngxc'
      else pure ngxc
