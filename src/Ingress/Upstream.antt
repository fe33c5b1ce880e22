-- ===== src/Ingress/Upstream.antt =====
-- nginx/configurator.go: createUpstream, createLocation and the names that they are given.
pub mod Laws
use lbex.Prelude.{String, Bool, Option, none, some, List, [], ◌∷◌, ◌==◌, if◌then◌else◌}
use Prim.Native.String.{◌++◌ as ◌⧺◌}
use lbex.Prelude.Dict.{get}
use lbex.Prelude.Split.{split}
use lbex.Outcome.{Outcome, done, halt, index_out_of_range, ◌>>=◌}
use lbex.K8s.{IntOrString}
use lbex.Nginx.Context.{HttpContext}
use lbex.Nginx.Http.{UpstreamServer, Upstream, Location, new_upstream_with_default_server}
use lbex.Ingress.{IngressBackend, Ingress, IngressEx}

abbrev pub empty_host : String
empty_host = ""

unfoldable pub path_or_default : String → String
path_or_default path = if path == "" then "/" else path

unfoldable pub get_name_for_upstream : Ingress → String → String → String
get_name_for_upstream ing host service = ing.namespace ⧺ "-" ⧺ ing.name ⧺ "-" ⧺ host ⧺ "-" ⧺ service

unfoldable pub create_location : String → Upstream → HttpContext → Bool → String → Bool → Location
create_location path upstream cfg websocket rewrite ssl = record {
  location_snippets = cfg.location_snippets;
  path = path;
  upstream = upstream;
  proxy_connect_timeout = cfg.proxy_connect_timeout;
  proxy_read_timeout = cfg.proxy_read_timeout;
  client_max_body_size = cfg.client_max_body_size;
  websocket = websocket;
  rewrite = rewrite;
  ssl = ssl;
  proxy_buffering = cfg.proxy_buffering;
  proxy_buffers = cfg.proxy_buffers;
  proxy_buffer_size = cfg.proxy_buffer_size;
  proxy_max_temp_file_size = cfg.proxy_max_temp_file_size;
}

-- `UpstreamServer{addressport[0], addressport[1]}`
unfoldable pub upstream_server : List String → Outcome UpstreamServer
upstream_server (address ∷ port ∷ more) = done (record { address = address; port = port })
upstream_server _ = halt index_out_of_range

-- the loop of createUpstream
unfoldable pub upstream_servers : List String → Outcome (List UpstreamServer)
unfolding split upstream_server
upstream_servers [] = done []
upstream_servers (endp ∷ endps) = upstream_server (split b':' endp) >>= λ server.
    upstream_servers endps >>= λ servers. done (server ∷ servers)

unfoldable pub with_servers : Upstream → List UpstreamServer → Upstream
with_servers ups [] = ups
with_servers ups (server ∷ servers) = record ups { upstream_servers = server ∷ servers }

-- `port_string` is IntOrString.String
module _ (port_string : IntOrString → String) where
  -- createUpstream
  unfoldable pub create_upstream : IngressEx → String → IngressBackend → Outcome Upstream
  unfolding get split upstream_server upstream_servers with_servers new_upstream_with_default_server
  create_upstream ex name backend =
      let ups = new_upstream_with_default_server name in
      elim (get (backend.service_name ⧺ port_string backend.service_port) ex.endpoints) [
        | none ↦ done ups
        | some endps ↦ upstream_servers endps >>= λ servers. done (with_servers ups servers)
      ]
