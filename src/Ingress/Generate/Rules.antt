-- ===== src/Ingress/Generate/Rules.antt =====
-- The loop of generateNginxIngressCfg of nginx/configurator.go over the rules.
use mathlib.Core.List.{append_assoc, append-nil, map-append}
use lbex.Prelude.{
  String, true, false, ◌≡◌, refl, sym, subst, ◌∙◌, ap, ◌≢◌, inl, inr, Option, none, some, List, [],
  ◌∷◌, ◌++◌, map, any, Elem, All, All-imp, All-append, arith, if◌then◌else◌, Bool-cases,
}
use lbex.Prelude.Dict.{Dict, get}
use lbex.Outcome.{Outcome, done, ◌>>=◌, bind-done, done-injective}
use lbex.K8s.{IntOrString}
use lbex.Nginx.Context.{HttpContext}
use lbex.Nginx.Http.{Upstream, Server}
use lbex.Ingress.{IngressBackend, HttpIngressPath, IngressRule, IngressEx}
use lbex.Ingress.Upstream.{empty_host, path_or_default, get_name_for_upstream}
use lbex.Ingress.Generate.{
  PathsDraft, RulesDraft, add_paths, default_location, root_locations, new_server, add_rules,
}
use lbex.Ingress.Generate.Upstreams.{IsUpstreams, Grows}
use lbex.Ingress.Generate.Loop.{
  Route, route, backend_name, is_root, Refers, path_route, location_for-Refers, Grows-present,
  Grows-Refers, IsAdded, add_paths-IsAdded,
}

-- The host that a server answers for, with its routes.
abbrev pub HostRoutes : Type 0
HostRoutes = String × List Route

abbrev pub server_routes : Server → HostRoutes
server_routes server = (server.name, map route server.locations)

module _ (ex : IngressEx) where
  -- The route of the default backend.
  abbrev pub default_route : IngressBackend → Route
  default_route backend = ("/", backend_name ex "" backend.service_name)

  -- What a rule asks for: the routes of its paths, and that of the default backend where there is one
  -- and no path is the root.
  abbrev pub fallback_routes : Option IngressBackend → List HttpIngressPath → List Route
  fallback_routes none paths = []
  fallback_routes (some backend) paths =
      if any is_root paths then [] else default_route backend ∷ []

  abbrev pub rule_routes : IngressRule → List HostRoutes
  rule_routes rule = elim rule.http [
    | none ↦ []
    | some paths ↦
        (rule.host, map (path_route ex rule.host) paths ++ fallback_routes ex.ingress.backend paths)
        ∷ []
  ]

  abbrev pub rules_routes : List IngressRule → List HostRoutes
  rules_routes [] = []
  rules_routes (rule ∷ rules) = rule_routes rule ++ rules_routes rules

  -- The map has the upstream of the default backend.
  abbrev pub HasDefault : Dict Upstream → Type 0
  HasDefault m =
      (backend : IngressBackend)
      → ex.ingress.backend ≡ some backend
      → get (get_name_for_upstream ex.ingress empty_host backend.service_name) m ≢ none

module _ (port_string : IntOrString → String) (cfg : HttpContext) (ex : IngressEx) where
  -- What the loop over the rules makes of its locals.
  pub record IsBuilt (rules : List IngressRule) (d d' : RulesDraft) : Type 0 where
    pub upstreams : IsUpstreams port_string ex d'.upstreams
    pub grows : Grows port_string ex d.upstreams d'.upstreams
    pub refers : All (λ (s : Server). All (Refers d'.upstreams) s.locations) d'.servers
    pub routes : map server_routes d'.servers ≡ map server_routes d.servers ++ rules_routes ex rules

  pub default_location-Refers :
      (m : Dict Upstream) (backend : IngressBackend)
      → ex.ingress.backend ≡ some backend
      → IsUpstreams port_string ex m
      → HasDefault ex m
      → (route (default_location port_string cfg ex m backend) ≡ default_route ex backend)
        × Refers m (default_location port_string cfg ex m backend)
  unfolding default_location path_or_default
  default_location-Refers m backend e h has_default =
      location_for-Refers port_string cfg ex m "/" _ backend.service_name h (has_default backend e)

  root_locations-Refers :
      (b : Option IngressBackend) (host : String) (paths : List HttpIngressPath) (d p : PathsDraft)
      → ex.ingress.backend ≡ b
      → d.root_location ≡ false
      → HasDefault ex p.upstreams
      → IsAdded port_string cfg ex host paths d p
      → (map route (root_locations port_string cfg ex b p) ≡ fallback_routes ex b paths)
        × All (Refers p.upstreams) (root_locations port_string cfg ex b p)
  unfolding root_locations
  root_locations-Refers none host paths d p e fresh has_default added = (refl, tt)
  root_locations-Refers (some backend) host paths d p e fresh has_default added =
      let (new_route, refers) =
        default_location-Refers p.upstreams backend e added.upstreams has_default in
      elim (Bool-cases p.root_location) [
        | inl h ↦
            let root : any is_root paths ≡ true = ground (arith, added.root, fresh, h) in
            rw (h, root) (refl, tt)
        | inr h ↦
            let no_root : any is_root paths ≡ false = ground (arith, added.root, fresh, h) in
            rw (h, no_root) (ap (λ r. r ∷ []) new_route, (refers, tt))
      ]

  IsBuilt-trans :
      (rule : IngressRule) (rules : List IngressRule) (d step d' : RulesDraft)
      → IsBuilt (rule ∷ []) d step
      → IsBuilt rules step d'
      → IsBuilt (rule ∷ rules) d d'
  IsBuilt-trans rule rules d step d' first rest = record {
    upstreams = rest.upstreams;
    grows = λ k u found. rest.grows k u (first.grows k u found);
    refers = rest.refers;
    routes =
        rest.routes
        ∙ (ap (λ rs. rs ++ rules_routes ex rules) first.routes
            ∙ cc (
              append_assoc (map server_routes d.servers) (rule_routes ex rule ++ [])
                  (rules_routes ex rules),
              append-nil (rule_routes ex rule),
            ));
  }

  -- A rule without paths changes nothing,
  skipped-IsBuilt :
      (rule : IngressRule) (rules : List IngressRule) (d d' : RulesDraft)
      → rule.http ≡ none
      → IsBuilt rules d d'
      → IsBuilt (rule ∷ rules) d d'
  skipped-IsBuilt rule rules d d' e rest = record {
    upstreams = rest.upstreams;
    grows = rest.grows;
    refers = rest.refers;
    routes = rw e rest.routes;
  }

  abbrev paths_before : RulesDraft → PathsDraft
  paths_before d = record { upstreams = d.upstreams; locations = []; root_location = false }

  abbrev built : Dict String → IngressRule → RulesDraft → PathsDraft → RulesDraft
  built pems rule d p = record {
    upstreams = p.upstreams;
    servers =
        d.servers
        ++ (record (new_server cfg pems rule.host) {
          locations = p.locations ++ root_locations port_string cfg ex ex.ingress.backend p;
        })
          ∷ [];
  }

  -- and one with paths gets a server.
  built-IsBuilt :
      (pems : Dict String) (rule : IngressRule) (paths : List HttpIngressPath) (d : RulesDraft)
      (p : PathsDraft)
      → rule.http ≡ some paths
      → HasDefault ex d.upstreams
      → All (λ (s : Server). All (Refers d.upstreams) s.locations) d.servers
      → IsAdded port_string cfg ex rule.host paths (paths_before d) p
      → IsBuilt (rule ∷ []) d (built pems rule d p)
  unfolding new_server
  built-IsBuilt pems rule paths d p http has_default refers added =
      let (routes, root_refers) =
        root_locations-Refers ex.ingress.backend rule.host paths (paths_before d) p refl refl
          (λ b e.
            Grows-present port_string cfg ex d.upstreams p.upstreams _ added.grows
              (has_default b e))
          added in
      record {
        upstreams = added.upstreams;
        grows = added.grows;
        refers =
            All-append (λ (s : Server). All (Refers p.upstreams) s.locations) d.servers _
              (All-imp
                (λ s.
                  Grows-Refers port_string cfg ex d.upstreams p.upstreams s.locations added.grows)
                d.servers refers)
              (All-append (Refers p.upstreams) p.locations _ added.refers root_refers, tt);
        routes = rw http (
            map-append server_routes d.servers _
            ∙ ap (λ rs. map server_routes d.servers ++ (rule.host, rs) ∷ [])
                (map-append route p.locations _
                  ∙ (ap
                        (λ rs.
                          rs ++ map route (root_locations port_string cfg ex ex.ingress.backend p))
                        added.routes
                      ∙ ap (λ rs. map (path_route ex rule.host) paths ++ rs) routes)));
      }

  pub add_rules-IsBuilt :
      (pems : Dict String) (rules : List IngressRule)
      → ((rule : IngressRule) → Elem rule rules → Elem rule ex.ingress.rules)
      → (d d' : RulesDraft) → IsUpstreams port_string ex d.upstreams
      → HasDefault ex d.upstreams
      → All (λ (s : Server). All (Refers d.upstreams) s.locations) d.servers
      → add_rules port_string cfg ex pems rules d ≡ done d'
      → IsBuilt rules d d'
  unfolding add_rules
  add_rules-IsBuilt pems [] within d d' h has_default refers ended =
      subst (IsBuilt [] d) (done-injective ended) (record {
        upstreams = h;
        grows = λ k u found. found;
        refers = refers;
        routes = sym (append-nil (map server_routes d.servers));
      })
  add_rules-IsBuilt pems (rule ∷ rules) within d d' h has_default refers ended =
      by_http rule.http refl ended (add_rules-IsBuilt pems rules (λ r there. within r (inr there)))
    where
      by_http :
          (o : Option (List HttpIngressPath))
          → rule.http ≡ o
          → (elim o as (λ x. Outcome RulesDraft) [
            | none ↦ add_rules port_string cfg ex pems rules d
            | some paths ↦ add_paths port_string cfg ex rule.host paths (paths_before d) >>= λ p.
                add_rules port_string cfg ex pems rules (built pems rule d p)
          ])
            ≡ done d'
          → ((e e' : RulesDraft)
              → IsUpstreams port_string ex e.upstreams
              → HasDefault ex e.upstreams
              → All (λ (s : Server). All (Refers e.upstreams) s.locations) e.servers
              → add_rules port_string cfg ex pems rules e ≡ done e'
              → IsBuilt rules e e')
          → IsBuilt (rule ∷ rules) d d'
      by_http none e f again = skipped-IsBuilt rule rules d d' e (again d d' h has_default refers f)
      by_http (some paths) e f again =
          let (p, g, i) =
            bind-done (add_paths port_string cfg ex rule.host paths (paths_before d)) _ d' f in
          let added =
            add_paths-IsAdded port_string cfg ex rule paths paths (within rule (inl refl)) e
              (λ path there. there) (paths_before d) p h tt g in
          let first = built-IsBuilt pems rule paths d p e has_default refers added in
          IsBuilt-trans rule rules d (built pems rule d p) d' first (
            again (built pems rule d p) d' first.upstreams
              (λ b c.
                Grows-present port_string cfg ex d.upstreams p.upstreams _ added.grows
                  (has_default b c))
              first.refers i)
