-- ===== src/Ingress/Generate.antt =====
-- nginx/configurator.go, generateNginxIngressCfg: the NGINX configuration of an Ingress.
pub mod Upstreams
pub mod Loop
pub mod Rules
pub mod Servers
pub mod Ends
pub mod Shared
pub mod Laws
use lbex.Prelude.{
  String, Bool, true, false, not, ◌||◌, Option, none, some, List, [], ◌∷◌, ◌++◌, map, ◌==◌,
  if◌then◌else◌,
}
use lbex.Prelude.Dict.{Dict, get, put}
use lbex.Outcome.{Outcome, done, ◌>>=◌}
use lbex.Runtime.{Runtime}
use lbex.K8s.{IntOrString}
use lbex.Nginx.Context.{HttpContext}
use lbex.Nginx.Http.{Upstream, Location, Server, HttpNginxConfig}
use lbex.Ingress.{IngressBackend, HttpIngressPath, IngressRule, Ingress, IngressEx}
use lbex.Ingress.Settings.{create_ingress_config}
use lbex.Ingress.Rewrites.{get_websocket_services, get_ssl_services, get_rewrites}
use lbex.Ingress.Upstream.{
  empty_host, path_or_default, get_name_for_upstream, create_location, create_upstream,
}

-- a read of a map with a zero value for a missing key
abbrev pub value_or : {A : Type 0} → A → Option A → A
value_or zero none = zero
value_or zero (some value) = value

abbrev zero_upstream : Upstream
zero_upstream = record { name = ""; upstream_servers = [] }

-- the server of the ingress, without its locations; the source has this literal twice
unfoldable pub new_server : HttpContext → Dict String → String → Server
unfolding get
new_server cfg pems name =
    let pem_file = get name pems in
    record {
      server_snippets = cfg.server_snippets;
      name = name;
      server_tokens = cfg.server_tokens;
      locations = [];
      ssl = elim pem_file [ none ↦ false | some file ↦ true ];
      ssl_certificate = value_or "" pem_file;
      ssl_certificate_key = value_or "" pem_file;
      http2 = cfg.http2;
      redirect_to_https = cfg.redirect_to_https;
      proxy_protocol = cfg.proxy_protocol;
      hsts = cfg.hsts;
      hsts_max_age = cfg.hsts_max_age;
      hsts_include_subdomains = cfg.hsts_include_subdomains;
      proxy_hide_headers = cfg.proxy_hide_headers;
      proxy_pass_headers = cfg.proxy_pass_headers;
      real_ip_header = cfg.real_ip_header;
      set_real_ip_from = cfg.set_real_ip_from;
      real_ip_recursive = cfg.real_ip_recursive;
    }

-- a location for a service: its upstream, as the map holds it, and what the annotations say of it
unfoldable pub location_for :
    HttpContext → Ingress → Dict Upstream → String → String → String → Location
unfolding get create_location get_websocket_services get_rewrites get_ssl_services
location_for cfg ing upstreams path ups_name service =
    create_location path (value_or zero_upstream (get ups_name upstreams)) cfg
      (value_or false (get service (get_websocket_services ing.annotations)))
      (value_or "" (get service (get_rewrites ing.annotations)))
      (value_or false (get service (get_ssl_services ing.annotations)))

-- The locals of the loop over the paths of a rule, and those of the loop over the rules.
pub record PathsDraft : Type 0 where
  pub upstreams : Dict Upstream
  pub locations : List Location
  pub root_location : Bool

pub record RulesDraft : Type 0 where
  pub upstreams : Dict Upstream
  pub servers : List Server

module _ (port_string : IntOrString → String) (cfg : HttpContext) (ex : IngressEx) where
  -- `if _, exists := upstreams[upsName]; !exists`
  unfoldable pub ensure_upstream : String → IngressBackend → Dict Upstream → Outcome (Dict Upstream)
  unfolding get put create_upstream
  ensure_upstream ups_name backend upstreams = elim (get ups_name upstreams) [
    | some there ↦ done upstreams
    | none ↦ create_upstream port_string ex ups_name backend >>= λ upstream.
        done (put ups_name upstream upstreams)
  ]

  -- one round of the loop over the paths
  unfoldable pub add_location : String → HttpIngressPath → PathsDraft → Dict Upstream → PathsDraft
  unfolding get_name_for_upstream location_for path_or_default
  add_location host path d upstreams =
      let service = path.backend.service_name in
      let ups_name = get_name_for_upstream ex.ingress host service in
      let loc =
        location_for cfg ex.ingress upstreams (path_or_default path.path) ups_name service in
      record {
        upstreams = upstreams;
        locations = d.locations ++ loc ∷ [];
        root_location = if loc.path == "/" then true else d.root_location;
      }

  unfoldable pub add_paths : String → List HttpIngressPath → PathsDraft → Outcome PathsDraft
  unfolding get_name_for_upstream ensure_upstream add_location
  add_paths host [] d = done d
  add_paths host (path ∷ paths) d =
      ensure_upstream (get_name_for_upstream ex.ingress host path.backend.service_name) path.backend
        d.upstreams
      >>= λ upstreams. add_paths host paths (add_location host path d upstreams)

  -- the location "/" of the default backend
  unfoldable pub default_location : Dict Upstream → IngressBackend → Location
  unfolding get_name_for_upstream location_for path_or_default
  default_location upstreams backend =
      location_for cfg ex.ingress upstreams (path_or_default "/")
        (get_name_for_upstream ex.ingress empty_host backend.service_name) backend.service_name

  -- `if rootLocation == false && ingEx.Ingress.Spec.Backend != nil`
  unfoldable pub root_locations : Option IngressBackend → PathsDraft → List Location
  unfolding default_location
  root_locations none d = []
  root_locations (some backend) d =
      if d.root_location then [] else default_location d.upstreams backend ∷ []

  -- the loop over the rules
  unfoldable pub add_rules : Dict String → List IngressRule → RulesDraft → Outcome RulesDraft
  unfolding add_paths new_server root_locations
  add_rules pems [] d = done d
  add_rules pems (rule ∷ rules) d = elim rule.http [
    | none ↦ add_rules pems rules d
    | some paths ↦
        add_paths rule.host paths
          (record { upstreams = d.upstreams; locations = []; root_location = false })
        >>= λ p. add_rules pems rules (record {
          upstreams = p.upstreams;
          servers =
              d.servers
              ++ (record (new_server cfg pems rule.host) {
                locations = p.locations ++ root_locations ex.ingress.backend p;
              })
                ∷ [];
        })
  ]

  -- the upstream of the default backend
  unfoldable pub default_upstreams : Option IngressBackend → Outcome (Dict Upstream)
  unfolding get_name_for_upstream create_upstream put
  default_upstreams none = done []
  default_upstreams (some backend) =
      let name = get_name_for_upstream ex.ingress empty_host backend.service_name in
      create_upstream port_string ex name backend >>= λ upstream. done (put name upstream [])

  -- `if len(ingEx.Ingress.Spec.Rules) == 0 && ingEx.Ingress.Spec.Backend != nil`
  unfoldable pub default_servers :
      Dict String → List IngressRule → Option IngressBackend → Dict Upstream → List Server
  unfolding new_server default_location
  default_servers pems [] (some backend) upstreams =
      (record (new_server cfg pems empty_host) {
        locations = default_location upstreams backend ∷ [];
      })
      ∷ []
  default_servers pems _ _ upstreams = []

unfoldable pub upstream_map_to_slice : Runtime → Dict Upstream → List Upstream
upstream_map_to_slice rt upstreams = map (λ entry. entry.1) (rt.visit Upstream 0 upstreams)

-- generateNginxIngressCfg, on the Configurator's context
unfoldable pub generate_nginx_ingress_cfg :
    Runtime
    → (IntOrString → String)
    → HttpContext
    → IngressEx
    → Dict String
    → Outcome HttpNginxConfig
unfolding create_ingress_config default_upstreams add_rules default_servers upstream_map_to_slice
generate_nginx_ingress_cfg rt port_string config ex pems =
    let ing_cfg = create_ingress_config config ex.ingress.annotations in
    default_upstreams port_string ing_cfg ex ex.ingress.backend >>= λ upstreams.
    add_rules port_string ing_cfg ex pems ex.ingress.rules
      (record { upstreams = upstreams; servers = [] })
    >>= λ d. done (record {
      upstreams = upstream_map_to_slice rt d.upstreams;
      servers =
          d.servers
          ++ default_servers port_string ing_cfg ex pems ex.ingress.rules ex.ingress.backend
              d.upstreams;
    })
