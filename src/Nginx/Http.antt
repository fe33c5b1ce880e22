-- ===== src/Nginx/Http.antt =====
-- The data of nginx/http.go: an NGINX configuration for an Ingress.
use lbex.Prelude.{String, Bool, List, [], ◌∷◌}
use lbex.Prelude.Int.{ℤ}

pub record UpstreamServer : Type 0 where
  pub address : String
  pub port : String

pub record Upstream : Type 0 where
  pub name : String
  pub upstream_servers : List UpstreamServer

pub record Location : Type 0 where
  pub location_snippets : List String
  pub path : String
  pub upstream : Upstream
  pub proxy_connect_timeout : String
  pub proxy_read_timeout : String
  pub client_max_body_size : String
  pub websocket : Bool
  pub rewrite : String
  pub ssl : Bool
  pub proxy_buffering : Bool
  pub proxy_buffers : String
  pub proxy_buffer_size : String
  pub proxy_max_temp_file_size : String

pub record Server : Type 0 where
  pub server_snippets : List String
  pub name : String
  pub server_tokens : Bool
  pub locations : List Location
  pub ssl : Bool
  pub ssl_certificate : String
  pub ssl_certificate_key : String
  pub http2 : Bool
  pub redirect_to_https : Bool
  pub proxy_protocol : Bool
  pub hsts : Bool
  pub hsts_max_age : ℤ
  pub hsts_include_subdomains : Bool
  pub proxy_hide_headers : List String
  pub proxy_pass_headers : List String
  pub real_ip_header : String
  pub set_real_ip_from : List String
  pub real_ip_recursive : Bool

pub record HttpNginxConfig : Type 0 where
  pub upstreams : List Upstream
  pub servers : List Server

-- NewUpstreamWithDefaultServer
unfoldable pub new_upstream_with_default_server : String → Upstream
new_upstream_with_default_server name = record {
  name = name;
  upstream_servers = record { address = "127.0.0.1"; port = "8181" } ∷ [];
}
