-- ===== src/Ingress/Generate/Laws.antt =====
-- The configuration that generateNginxIngressCfg of nginx/configurator.go returns.
use mathlib.Core.List.{map-append}
use lbex.Prelude.{
  String, ◌≡◌, refl, sym, subst, ◌∙◌, ap, ◌≢◌, Option, none, some, List, [], ◌∷◌, ◌++◌, map, Elem,
  All, All-imp, All-append, Distinct, eq_refl,
}
use lbex.Prelude.Dict.{Dict, get, get-put}
use lbex.Outcome.{done, bind-done, done-injective}
use lbex.Runtime.{Runtime}
use lbex.Runtime.Laws.{none-some, some-injective, Elem-All, values_iff, values-Distinct}
use lbex.K8s.{IntOrString}
use lbex.Nginx.Context.{HttpContext}
use lbex.Nginx.Http.{Upstream, Location, Server, HttpNginxConfig}
use lbex.Ingress.{IngressBackend, IngressRule, IngressEx}
use lbex.Ingress.Settings.{create_ingress_config}
use lbex.Ingress.Upstream.{empty_host, get_name_for_upstream, create_upstream}
use lbex.Ingress.Generate.{
  RulesDraft, new_server, add_rules, default_upstreams, default_servers, upstream_map_to_slice,
  generate_nginx_ingress_cfg,
}
use lbex.Ingress.Generate.Upstreams.{
  IsBackend, default_backend, create_upstream-named, Origin, IsUpstreams, empty-IsUpstreams,
  IsUpstreams-IsKeyed, put-IsUpstreams,
}
use lbex.Ingress.Generate.Loop.{Refers, Grows-present}
use lbex.Ingress.Generate.Rules.{
  HostRoutes, server_routes, default_route, rules_routes, HasDefault, IsBuilt,
  default_location-Refers, add_rules-IsBuilt,
}

-- What an ingress asks for: the routes of its rules, or a server for every host with the default
-- backend, where there are no rules.
abbrev pub default_routes : IngressEx → List IngressRule → Option IngressBackend → List HostRoutes
default_routes ex [] (some backend) = (empty_host, default_route ex backend ∷ []) ∷ []
default_routes ex _ _ = []

abbrev pub ingress_routes : IngressEx → List HostRoutes
ingress_routes ex =
    rules_routes ex ex.ingress.rules ++ default_routes ex ex.ingress.rules ex.ingress.backend

-- No two upstreams of the configuration share a name, each has a server, and each location passes its
-- requests to one of them.
pub record IsLinked (config : HttpNginxConfig) : Type 0 where
  pub names_distinct : Distinct (map (λ (u : Upstream). u.name) config.upstreams)
  pub served : All (λ (u : Upstream). u.upstream_servers ≢ []) config.upstreams
  pub references :
      All
        (λ (s : Server). All (λ (loc : Location). Elem loc.upstream config.upstreams) s.locations)
        config.servers

module _ (port_string : IntOrString → String) (cfg : HttpContext) (ex : IngressEx) where
  default_upstreams-IsUpstreams :
      (b : Option IngressBackend) (m : Dict Upstream)
      → ex.ingress.backend ≡ b
      → default_upstreams port_string cfg ex b ≡ done m
      → IsUpstreams port_string ex m × HasDefault ex m
  unfolding default_upstreams get
  default_upstreams-IsUpstreams none m e h =
      subst (λ x. IsUpstreams port_string ex x × HasDefault ex x) (done-injective h)
        (empty-IsUpstreams port_string ex, λ backend f. absurd (none-some (sym e ∙ f)))
  default_upstreams-IsUpstreams (some backend) m e h =
      let name = get_name_for_upstream ex.ingress empty_host backend.service_name in
      let (u, created, f) = bind-done (create_upstream port_string ex name backend) _ m h in
      subst (λ x. IsUpstreams port_string ex x × HasDefault ex x) (done-injective f)
        (
          put-IsUpstreams port_string ex name empty_host backend u [] refl
              (default_backend backend e) created (empty-IsUpstreams port_string ex),
          λ other g missing. none-some {a = u} (
              sym missing
              ∙ rw (some-injective (sym g ∙ e), get-put name name u [], eq_refl name) refl),
        )

  default_servers-Refers :
      (pems : Dict String) (rules : List IngressRule) (b : Option IngressBackend)
      (m : Dict Upstream)
      → ex.ingress.backend ≡ b
      → IsUpstreams port_string ex m
      → HasDefault ex m
      → (map server_routes (default_servers port_string cfg ex pems rules b m)
          ≡ default_routes ex rules b)
        × All
            (λ (s : Server). All (Refers m) s.locations)
            (default_servers port_string cfg ex pems rules b m)
  unfolding default_servers new_server
  default_servers-Refers pems [] (some backend) m e h has_default =
      let (new_route, refers) =
        default_location-Refers port_string cfg ex m backend e h has_default in
      (ap (λ r. (empty_host, r ∷ []) ∷ []) new_route, ((refers, tt), tt))
  default_servers-Refers pems [] none m e h has_default = (refl, tt)
  default_servers-Refers pems (rule ∷ rules) (some backend) m e h has_default = (refl, tt)
  default_servers-Refers pems (rule ∷ rules) none m e h has_default = (refl, tt)

module _ (rt : Runtime) (port_string : IntOrString → String) (settings : HttpContext)
    (ex : IngressEx) (pems : Dict String) where
  -- All that holds of the configuration that is returned.
  record IsGenerated (config : HttpNginxConfig) : Type 0 where
    linked : IsLinked config
    origin : (u : Upstream) → Elem u config.upstreams → Origin port_string ex u.name u
    routes : map server_routes config.servers ≡ ingress_routes ex

  abbrev cfg : HttpContext
  cfg = create_ingress_config settings ex.ingress.annotations

  built-IsGenerated :
      (m : Dict Upstream) (d : RulesDraft)
      → HasDefault ex d.upstreams
      → IsBuilt port_string cfg ex ex.ingress.rules (record { upstreams = m; servers = [] }) d
      → IsGenerated (record {
        upstreams = upstream_map_to_slice rt d.upstreams;
        servers =
            d.servers
            ++ default_servers port_string cfg ex pems ex.ingress.rules ex.ingress.backend
                d.upstreams;
      })
  unfolding upstream_map_to_slice
  built-IsGenerated m d has_default built =
      let keyed = IsUpstreams-IsKeyed port_string ex d.upstreams built.upstreams in
      let visited =
        values_iff (λ (u : Upstream). u.name) rt d.upstreams built.upstreams.is_map keyed in
      let (routes, refers) =
        default_servers-Refers port_string cfg ex pems ex.ingress.rules ex.ingress.backend
          d.upstreams refl built.upstreams has_default in
      let origin : (u : Upstream)
          → Elem u (upstream_map_to_slice rt d.upstreams)
          → Origin port_string ex u.name u =
        λ u there. built.upstreams.origin u.name u ((visited u).0 there) in
      record {
        linked = record {
          names_distinct =
              values-Distinct (λ (u : Upstream). u.name) rt d.upstreams built.upstreams.is_map
                keyed;
          served =
              Elem-All (λ (u : Upstream). u.upstream_servers ≢ []) _
                (λ u there.
                  let (host, backend, named, e, created) = origin u there in
                  (create_upstream-named port_string ex u.name backend u created).1);
          references =
              All-imp
                (λ (s : Server).
                  All-imp (λ (loc : Location) found. (visited loc.upstream).1 found) s.locations)
                _
                (All-append (λ (s : Server). All (Refers d.upstreams) s.locations) d.servers _
                  built.refers refers);
        };
        origin = origin;
        routes =
            map-append server_routes d.servers _
            ∙ (ap
                  (λ rs.
                    rs
                    ++ map server_routes (
                        default_servers port_string cfg ex pems ex.ingress.rules ex.ingress.backend
                          d.upstreams))
                  built.routes
                ∙ ap (λ rs. rules_routes ex ex.ingress.rules ++ rs) routes);
      }

  generate-IsGenerated :
      (config : HttpNginxConfig)
      → generate_nginx_ingress_cfg rt port_string settings ex pems ≡ done config
      → IsGenerated config
  unfolding generate_nginx_ingress_cfg
  generate-IsGenerated config ended =
      let (m, e, f) =
        bind-done (default_upstreams port_string cfg ex ex.ingress.backend) _ config ended in
      let (d, g, h) =
        bind-done
          (add_rules port_string cfg ex pems ex.ingress.rules
            (record { upstreams = m; servers = [] }))
          _ config f in
      let (upstreams, has_default) =
        default_upstreams-IsUpstreams port_string cfg ex ex.ingress.backend m refl e in
      let built =
        add_rules-IsBuilt port_string cfg ex pems ex.ingress.rules (λ rule there. there) _ d
          upstreams has_default tt g in
      subst IsGenerated (done-injective h) (
        built-IsGenerated m d
          (λ b c. Grows-present port_string cfg ex m d.upstreams _ built.grows (has_default b c))
          built)

  -- If an ingress has a configuration, no two upstreams of it share a name, each upstream has a
  -- server, and each location passes its requests to an upstream of the configuration.
  pub generate-IsLinked :
      (config : HttpNginxConfig)
      → generate_nginx_ingress_cfg rt port_string settings ex pems ≡ done config
      → IsLinked config
  generate-IsLinked config ended = (generate-IsGenerated config ended).linked

  -- If an ingress has a configuration, its servers and their routes, in order, are those that the
  -- ingress asks for: for each rule with paths a server for its host, with a route for each path (the
  -- root where none is written) and one for the default backend if there is one and no path is the
  -- root; and where there are no rules, a server for every host with the default backend. Each route
  -- goes to the upstream that is named after the namespace and the name of the ingress, the host and
  -- the service, whatever the port of the service is.
  pub generate-routes :
      (config : HttpNginxConfig)
      → generate_nginx_ingress_cfg rt port_string settings ex pems ≡ done config
      → map server_routes config.servers ≡ ingress_routes ex
  generate-routes config ended = (generate-IsGenerated config ended).routes

  -- If an ingress has a configuration, each of its upstreams is the one that createUpstream makes
  -- for a backend that the ingress names, under the name of that backend.
  pub generate-origin :
      (config : HttpNginxConfig)
      → generate_nginx_ingress_cfg rt port_string settings ex pems ≡ done config
      → (u : Upstream) → Elem u config.upstreams
      → (host : String) × (backend : IngressBackend) × IsBackend ex host backend
        × (u.name ≡ get_name_for_upstream ex.ingress host backend.service_name)
        × (create_upstream port_string ex u.name backend ≡ done u)
  generate-origin config ended = (generate-IsGenerated config ended).origin
