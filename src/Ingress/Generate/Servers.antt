-- ===== src/Ingress/Generate/Servers.antt =====
-- The servers that generateNginxIngressCfg of nginx/configurator.go makes, without their locations.
use lbex.Prelude.{
  String, ◌≡◌, subst, false, Option, none, some, List, [], ◌∷◌, ◌++◌, All, All-append,
}
use lbex.Prelude.Dict.{Dict}
use lbex.Outcome.{Outcome, done, ◌>>=◌, bind-done, done-injective}
use lbex.Runtime.{Runtime}
use lbex.K8s.{IntOrString}
use lbex.Nginx.Context.{HttpContext}
use lbex.Nginx.Http.{Upstream, Location, Server, HttpNginxConfig}
use lbex.Ingress.{IngressBackend, HttpIngressPath, IngressRule, IngressEx}
use lbex.Ingress.Settings.{create_ingress_config}
use lbex.Ingress.Upstream.{empty_host}
use lbex.Ingress.Generate.{
  RulesDraft, add_paths, root_locations, new_server, add_rules, default_upstreams, default_servers,
  generate_nginx_ingress_cfg,
}

module _ (port_string : IntOrString → String) (cfg : HttpContext) (ex : IngressEx)
    (pems : Dict String) (P : Server → Type 0)
    (new : (host : String) (locations : List Location)
      → P (record (new_server cfg pems host) { locations = locations })) where
  add_rules-All :
      (rules : List IngressRule) (d d' : RulesDraft)
      → All P d.servers
      → add_rules port_string cfg ex pems rules d ≡ done d'
      → All P d'.servers
  unfolding add_rules
  add_rules-All [] d d' h ended =
      subst (λ (e : RulesDraft). All P e.servers) (done-injective ended) h
  add_rules-All (rule ∷ rules) d d' h ended = by_http rule.http ended (add_rules-All rules)
    where
      by_http :
          (o : Option (List HttpIngressPath))
          → (elim o as (λ x. Outcome RulesDraft) [
            | none ↦ add_rules port_string cfg ex pems rules d
            | some paths ↦
                add_paths port_string cfg ex rule.host paths
                  (record { upstreams = d.upstreams; locations = []; root_location = false })
                >>= λ p. add_rules port_string cfg ex pems rules (record {
                  upstreams = p.upstreams;
                  servers =
                      d.servers
                      ++ (record (new_server cfg pems rule.host) {
                        locations =
                            p.locations ++ root_locations port_string cfg ex ex.ingress.backend p;
                      })
                        ∷ [];
                })
          ])
            ≡ done d'
          → ((e e' : RulesDraft)
              → All P e.servers
              → add_rules port_string cfg ex pems rules e ≡ done e'
              → All P e'.servers)
          → All P d'.servers
      by_http none f again = again d d' h f
      by_http (some paths) f again =
          let (p, e, g) = bind-done (add_paths port_string cfg ex rule.host paths _) _ d' f in
          again _ d' (All-append P d.servers _ h (new rule.host _, tt)) g

  default_servers-All :
      (rules : List IngressRule) (b : Option IngressBackend) (m : Dict Upstream)
      → All P (default_servers port_string cfg ex pems rules b m)
  unfolding default_servers
  default_servers-All [] (some backend) m = (new empty_host _, tt)
  default_servers-All [] none m = tt
  default_servers-All (rule ∷ rules) (some backend) m = tt
  default_servers-All (rule ∷ rules) none m = tt

-- What holds of every new server holds of every server of the configuration.
pub generate-All :
    (rt : Runtime) (port_string : IntOrString → String) (settings : HttpContext) (ex : IngressEx)
    (pems : Dict String) (config : HttpNginxConfig) (P : Server → Type 0)
    → ((host : String) (locations : List Location)
        → P (record (new_server (create_ingress_config settings ex.ingress.annotations) pems host) {
          locations = locations;
        }))
    → generate_nginx_ingress_cfg rt port_string settings ex pems ≡ done config
    → All P config.servers
unfolding generate_nginx_ingress_cfg
generate-All rt port_string settings ex pems config P new ended =
    let cfg = create_ingress_config settings ex.ingress.annotations in
    let (m, e, f) =
      bind-done (default_upstreams port_string cfg ex ex.ingress.backend) _ config ended in
    let (d, g, h) =
      bind-done
        (add_rules port_string cfg ex pems ex.ingress.rules
          (record { upstreams = m; servers = [] }))
        _ config f in
    subst (λ (c : HttpNginxConfig). All P c.servers) (done-injective h)
      (All-append P d.servers _
        (add_rules-All port_string cfg ex pems P new ex.ingress.rules _ d tt g)
        (default_servers-All port_string cfg ex pems P new ex.ingress.rules ex.ingress.backend
          d.upstreams))
