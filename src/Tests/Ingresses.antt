-- ===== src/Tests/Ingresses.antt =====
-- The theorems on ingresses, applied to an ingress `shop/site` with two paths, a default backend, a
-- rewrite and a certificate.
use lbex.Prelude.{
  arith, String, ◌≡◌, refl, sym, subst, ◌∙◌, String-cases, ◌⊎◌, inl, inr, Bool, true, false, Option,
  none, some, [], ◌∷◌, map, All, ◌==◌, if◌then◌else◌,
}
use lbex.Prelude.Int.{pos}
use lbex.Prelude.Text.{itoa}
use lbex.Prelude.Split.{contains, split}
use lbex.Prelude.Dict.{Dict, get, put}
use lbex.Outcome.{Outcome, done, halt}
use lbex.K8s.{IntOrString, int, string}
use lbex.Nginx.Context.{new_default_http_context}
use lbex.Nginx.Http.{UpstreamServer, Upstream, HttpNginxConfig, new_upstream_with_default_server}
use lbex.Nginx.Control.{http_cfg}
use lbex.Configurator.{State}
use lbex.Ingress.{IngressBackend, HttpIngressPath, IngressEx}
use lbex.Ingress.Settings.{create_ingress_config}
use lbex.Ingress.Settings.Laws.{merged, create_ingress_config-merged}
use lbex.Ingress.Rewrites.{get_rewrites}
use lbex.Ingress.Rewrites.Laws.{Rewrite, rewrite_text, path_of, get_rewrites_roundtrip}
use lbex.Ingress.Upstream.{
  get_name_for_upstream, upstream_server, upstream_servers, with_servers, create_upstream,
}
use lbex.Ingress.Upstream.Laws.{endpoint_text, HasColon, HasPorts, create_upstream_roundtrip}
use lbex.Ingress.Generate.{
  PathsDraft, ensure_upstream, add_paths, add_rules, default_upstreams, upstream_map_to_slice,
  generate_nginx_ingress_cfg,
}
use lbex.Ingress.Generate.Upstreams.{IsBackend}
use lbex.Ingress.Generate.Rules.{server_routes}
use lbex.Ingress.Generate.Laws.{
  ingress_routes, IsLinked, generate-IsLinked, generate-routes, generate-origin,
}
use lbex.Ingress.Publish.{has_http, add_or_update_ingress}
use lbex.Ingress.Publish.Laws.{IsIngressPublished, add_or_update_ingress-IsPublished}
use lbex.Ingress.Publish.Ends.{HasSecrets, add_or_update_ingress-ends}
use lbex.Runtime.Laws.{none-some, some-injective}
use lbex.Tests.Generated.{os-IsWritable}
use lbex.Tests.{rt, os, state, ngxc}

abbrev port_string : IntOrString → String
port_string t = elim t.type [ int ↦ itoa t.int_val | string ↦ t.str_val ]

abbrev named_port : String → IntOrString
named_port name = record { type = string; int_val = pos 0; str_val = name }

abbrev web_backend : IngressBackend
web_backend = record { service_name = "web"; service_port = named_port "http" }

abbrev web_path : HttpIngressPath
web_path = record { path = ""; backend = web_backend }

abbrev api_path : HttpIngressPath
api_path = record {
  path = "/api";
  backend = record { service_name = "api"; service_port = named_port "http" };
}

abbrev rewrite : Rewrite
rewrite = record { service = "api"; path = "/v1/" }

abbrev web_server : UpstreamServer
web_server = record { address = "10.1.0.1"; port = "8000" }

abbrev site : IngressEx
site = record {
  ingress = record {
    namespace = "shop";
    name = "site";
    annotations =
        ("nginx.org/rewrites", rewrite_text rewrite) ∷ ("nginx.org/server-tokens", "False") ∷ [];
    backend = some web_backend;
    tls = record { hosts = "shop.example" ∷ []; secret_name = "cert" } ∷ [];
    rules =
        record { host = "shop.example"; http = some (api_path ∷ web_path ∷ []) }
        ∷ record { host = "plain.example"; http = some (api_path ∷ []) }
        ∷ [];
  };
  secrets =
      ("cert", some (record { secret_data = ("tls.crt", "CERT") ∷ ("tls.key", "KEY") ∷ [] })) ∷ [];
  endpoints = ("webhttp", endpoint_text web_server ∷ []) ∷ [];
}

-- A value that is computed, and what stands for it where the call halts.
abbrev config_of : Outcome HttpNginxConfig → HttpNginxConfig
config_of (done config) = config
config_of (halt stop) = record { upstreams = []; servers = [] }

abbrev pems : Dict String
pems = ("shop.example", "/etc/nginx/ssl/shop-cert.pem") ∷ []

abbrev site_config : HttpNginxConfig
site_config =
    config_of (generate_nginx_ingress_cfg rt port_string new_default_http_context site pems)

site_generated :
    generate_nginx_ingress_cfg rt port_string new_default_http_context site pems ≡ done site_config
unfolding generate_nginx_ingress_cfg get put split contains default_upstreams create_upstream
    new_upstream_with_default_server upstream_servers upstream_server with_servers add_rules
    add_paths ensure_upstream get_name_for_upstream
site_generated = refl

generate-IsLinked_example : IsLinked site_config
generate-IsLinked_example =
    generate-IsLinked rt port_string new_default_http_context site pems site_config site_generated

generate-routes_example : map server_routes site_config.servers ≡ ingress_routes site
generate-routes_example =
    generate-routes rt port_string new_default_http_context site pems site_config site_generated

create_ingress_config-merged_example :
    create_ingress_config new_default_http_context site.ingress.annotations
    ≡ merged new_default_http_context site.ingress.annotations
create_ingress_config-merged_example =
    create_ingress_config-merged new_default_http_context site.ingress.annotations

get_rewrites_roundtrip_example :
    get "api" (get_rewrites site.ingress.annotations) ≡ path_of "api" (rewrite ∷ [])
unfolding contains get
get_rewrites_roundtrip_example =
    get_rewrites_roundtrip rewrite [] site.ingress.annotations "api"
      ((refl, refl, refl, refl, refl), tt) refl

create_upstream_roundtrip_example :
    create_upstream port_string site "shop-site--web" web_backend
    ≡ done (record { name = "shop-site--web"; upstream_servers = web_server ∷ [] })
unfolding contains get
create_upstream_roundtrip_example =
    create_upstream_roundtrip port_string site "shop-site--web" web_backend web_server []
      ((refl, refl), tt) refl

abbrev web_upstream : Upstream
web_upstream = record { name = "shop-site--web"; upstream_servers = web_server ∷ [] }

generate-origin_example :
    (host : String) × (backend : IngressBackend) × IsBackend site host backend
    × ("shop-site--web" ≡ get_name_for_upstream site.ingress host backend.service_name)
    × (create_upstream port_string site "shop-site--web" backend ≡ done web_upstream)
unfolding generate_nginx_ingress_cfg get put split contains default_upstreams create_upstream
    new_upstream_with_default_server upstream_servers upstream_server with_servers add_rules
    add_paths ensure_upstream get_name_for_upstream upstream_map_to_slice
generate-origin_example =
    generate-origin rt port_string new_default_http_context site pems site_config site_generated
      web_upstream (inr (inr (inr (inl refl))))

abbrev no_paths : PathsDraft
no_paths = record { upstreams = []; locations = []; root_location = false }

abbrev http_state : State
http_state = record state { ngxc = record ngxc { cfg_type = http_cfg } }

abbrev published_state : State
published_state = (add_or_update_ingress os rt port_string "shop-site" site http_state).1

add_or_update_ingress-IsPublished_example :
    (◌≡◌ {A = Option String} none none)
    × IsIngressPublished rt os port_string "shop-site" site http_state published_state
unfolding add_or_update_ingress has_http
add_or_update_ingress-IsPublished_example =
    add_or_update_ingress-IsPublished rt os port_string "shop-site" site http_state none
      published_state refl refl

site-HasPorts : HasPorts port_string site
unfolding get contains
site-HasPorts key endps h = elim (String-cases "webhttp" key) [
  | inl (_, same) ↦ subst (All HasColon) (some-injective (sym (entry key true same) ∙ h)) (refl, tt)
  | inr (_, other) ↦ absurd (none-some (sym (entry key false other) ∙ h))
]
  where
    entry :
        (key : String) (b : Bool)
        → ("webhttp" == key) ≡ b
        → get key site.endpoints ≡ (if b then some (endpoint_text web_server ∷ []) else none)
    entry key b e = rw (get, e) refl

site-HasSecrets : HasSecrets site
unfolding get
site-HasSecrets name h = ground (arith, h)

add_or_update_ingress-ends_example :
    ((has_http http_cfg ≡ true)
      × ((st' : State) × (add_or_update_ingress os rt port_string "shop-site" site http_state
            ≡ (done none, st'))))
    ⊎ ((has_http http_cfg ≡ false)
        × ((err : String) × (add_or_update_ingress os rt port_string "shop-site" site http_state
              ≡ (done (some err), http_state))))
add_or_update_ingress-ends_example =
    add_or_update_ingress-ends os os-IsWritable (λ w file. refl) rt port_string "shop-site" site
      http_state site-HasPorts site-HasSecrets
