-- ===== src/Ingress/Generate/Ends.antt =====
-- When generateNginxIngressCfg of nginx/configurator.go ends without a panic.
use lbex.Prelude.{String, ◌≡◌, refl, Option, none, some, List, [], ◌∷◌}
use lbex.Prelude.Dict.{Dict, get}
use lbex.Outcome.{Outcome, done, ◌>>=◌}
use lbex.Runtime.{Runtime}
use lbex.K8s.{IntOrString}
use lbex.Nginx.Context.{HttpContext}
use lbex.Nginx.Http.{Upstream, HttpNginxConfig}
use lbex.Ingress.{IngressBackend, HttpIngressPath, IngressRule, IngressEx}
use lbex.Ingress.Settings.{create_ingress_config}
use lbex.Ingress.Upstream.{get_name_for_upstream, create_upstream}
use lbex.Ingress.Upstream.Laws.{HasPorts, create_upstream-ends}
use lbex.Ingress.Generate.{
  PathsDraft, RulesDraft, ensure_upstream, add_location, add_paths, add_rules, default_upstreams,
  generate_nginx_ingress_cfg,
}

-- A call ends with a value.
abbrev pub Ends : {A : Type 0} → Outcome A → Type 0
Ends {A} r = (a : A) × (r ≡ done a)

-- A sequence ends if its first call does, and the rest does from there.
bind-Ends :
    {A B : Type 0} (r : Outcome A) (f : A → Outcome B)
    → Ends r
    → ((a : A) → Ends (f a))
    → Ends (r >>= f)
bind-Ends r f (a, e) h = rw e (h a)

-- A choice ends if each of its cases does.
elim-Ends :
    {A B : Type 0} (o : Option A) (r : Outcome B) (f : A → Outcome B)
    → Ends r
    → ((a : A) → Ends (f a))
    → Ends (elim o as (λ x. Outcome B) [ none ↦ r | some a ↦ f a ])
elim-Ends none r f h k = h
elim-Ends (some a) r f h k = k a

module _ (port_string : IntOrString → String) (cfg : HttpContext) (ex : IngressEx)
    (ports : HasPorts port_string ex) where
  ensure_upstream-Ends :
      (name : String) (backend : IngressBackend) (m : Dict Upstream)
      → Ends (ensure_upstream port_string cfg ex name backend m)
  unfolding ensure_upstream
  ensure_upstream-Ends name backend m =
      elim-Ends (get name m) _ _
        (bind-Ends (create_upstream port_string ex name backend) _
          (create_upstream-ends port_string ex ports name backend) (λ u. (_, refl)))
        (λ there. (m, refl))

  add_paths-Ends :
      (host : String) (paths : List HttpIngressPath) (d : PathsDraft)
      → Ends (add_paths port_string cfg ex host paths d)
  unfolding add_paths
  add_paths-Ends host [] d = (d, refl)
  add_paths-Ends host (path ∷ paths) d =
      bind-Ends
        (ensure_upstream port_string cfg ex
          (get_name_for_upstream ex.ingress host path.backend.service_name) path.backend
          d.upstreams)
        _ (ensure_upstream-Ends _ path.backend d.upstreams)
        (λ m. add_paths-Ends host paths (add_location port_string cfg ex host path d m))

  add_rules-Ends :
      (pems : Dict String) (rules : List IngressRule) (d : RulesDraft)
      → Ends (add_rules port_string cfg ex pems rules d)
  unfolding add_rules
  add_rules-Ends pems [] d = (d, refl)
  add_rules-Ends pems (rule ∷ rules) d =
      elim-Ends rule.http _ _ (add_rules-Ends pems rules d) (λ paths.
        bind-Ends (add_paths port_string cfg ex rule.host paths _) _
          (add_paths-Ends rule.host paths _) (λ p. add_rules-Ends pems rules _))

  default_upstreams-Ends :
      (b : Option IngressBackend) → Ends (default_upstreams port_string cfg ex b)
  unfolding default_upstreams
  default_upstreams-Ends none = ([], refl)
  default_upstreams-Ends (some backend) =
      bind-Ends (create_upstream port_string ex _ backend) _
        (create_upstream-ends port_string ex ports _ backend) (λ u. (_, refl))

-- If every endpoint that an ingress lists has a colon, generateNginxIngressCfg returns a
-- configuration, whatever the rules, the annotations and the certificates are.
pub generate-ends :
    (rt : Runtime) (port_string : IntOrString → String) (settings : HttpContext) (ex : IngressEx)
    (pems : Dict String)
    → HasPorts port_string ex
    → (config : HttpNginxConfig) × (generate_nginx_ingress_cfg rt port_string settings ex pems
        ≡ done config)
unfolding generate_nginx_ingress_cfg
generate-ends rt port_string settings ex pems ports =
    let cfg = create_ingress_config settings ex.ingress.annotations in
    bind-Ends (default_upstreams port_string cfg ex ex.ingress.backend) _
      (default_upstreams-Ends port_string cfg ex ports ex.ingress.backend)
      (λ m.
        bind-Ends (add_rules port_string cfg ex pems ex.ingress.rules _) _
          (add_rules-Ends port_string cfg ex ports pems ex.ingress.rules _) (λ d. (_, refl)))
