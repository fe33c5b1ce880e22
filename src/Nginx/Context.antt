-- ===== src/Nginx/Context.antt =====
-- nginx/http_context.go and the types of the main configuration file in nginx/nginx.go.
use lbex.Prelude.{String, Bool, true, false, List, []}
use lbex.Prelude.Int.{ℤ, pos}
use lbex.Prelude.Dict.{Dict}

pub record HttpContext : Type 0 where
  pub location_snippets : List String
  pub server_snippets : List String
  pub server_tokens : Bool
  pub proxy_connect_timeout : String
  pub proxy_read_timeout : String
  pub client_max_body_size : String
  pub http2 : Bool
  pub redirect_to_https : Bool
  pub main_http_snippets : List String
  pub main_server_names_hash_bucket_size : String
  pub main_server_names_hash_max_size : String
  pub main_log_format : String
  pub proxy_buffering : Bool
  pub proxy_buffers : String
  pub proxy_buffer_size : String
  pub proxy_max_temp_file_size : String
  pub proxy_protocol : Bool
  pub proxy_hide_headers : List String
  pub proxy_pass_headers : List String
  pub hsts : Bool
  pub hsts_max_age : ℤ
  pub hsts_include_subdomains : Bool
  pub real_ip_header : String
  pub set_real_ip_from : List String
  pub real_ip_recursive : Bool
  pub main_server_ssl_protocols : String
  pub main_server_ssl_prefer_server_ciphers : Bool
  pub main_server_ssl_ciphers : String
  pub main_server_ssl_dh_param : String

-- NewDefaultHTTPContext; the fields that the source leaves out hold Go's zero value
abbrev pub new_default_http_context : HttpContext
new_default_http_context = record {
  location_snippets = [];
  server_snippets = [];
  server_tokens = true;
  proxy_connect_timeout = "60s";
  proxy_read_timeout = "60s";
  client_max_body_size = "1m";
  http2 = false;
  redirect_to_https = false;
  main_http_snippets = [];
  main_server_names_hash_bucket_size = "";
  main_server_names_hash_max_size = "512";
  main_log_format = "";
  proxy_buffering = true;
  proxy_buffers = "";
  proxy_buffer_size = "";
  proxy_max_temp_file_size = "";
  proxy_protocol = false;
  proxy_hide_headers = [];
  proxy_pass_headers = [];
  hsts = false;
  hsts_max_age = pos 2592000;
  hsts_include_subdomains = false;
  real_ip_header = "";
  set_real_ip_from = [];
  real_ip_recursive = false;
  main_server_ssl_protocols = "";
  main_server_ssl_prefer_server_ciphers = false;
  main_server_ssl_ciphers = "";
  main_server_ssl_dh_param = "";
}

pub record NginxMainEventConfig : Type 0 where
  pub accept_mutex : Bool
  pub accept_mutex_delay : String
  pub multi_accept : Bool
  pub worker_connections : String

pub record NginxMainHttpConfig : Type 0 where
  pub server_names_hash_bucket_size : String
  pub server_names_hash_max_size : String
  pub log_format : String
  pub health_status : Bool
  pub health_port : ℤ
  pub http_snippets : List String
  pub ssl_protocols : String
  pub ssl_prefer_server_ciphers : Bool
  pub ssl_ciphers : String
  pub ssl_dh_param : String

pub record NginxMainConfig : Type 0 where
  pub daemon : Bool
  pub error_log_file : String
  pub error_log_level : String
  pub environment : Dict String
  pub lock_file : String
  pub pid_file : String
  pub user : String
  pub group : String
  pub worker_priority : String
  pub worker_processes : String
  pub working_directory : String
  pub event_context : NginxMainEventConfig
  pub default_stream_context : Bool
  pub default_http_context : Bool
  pub http_context : NginxMainHttpConfig
