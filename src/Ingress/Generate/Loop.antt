-- ===== src/Ingress/Generate/Loop.antt =====
-- The loops of generateNginxIngressCfg of nginx/configurator.go over the paths of a rule.
use mathlib.Core.List.{append_assoc, append-nil, map-append}
use lbex.Prelude.{
  String, Bool, ◌||◌, ◌≡◌, refl, sym, subst, ◌∙◌, ap, ◌≢◌, inl, inr, none, some, List, [], ◌∷◌,
  ◌++◌, map, any, Elem, All, All-imp, All-append, Option-cases, ◌==◌, arith, if◌then◌else◌,
}
use Prim.Native.String.{◌++◌ as ◌⧺◌}
use lbex.Prelude.Dict.{Dict, get}
use lbex.Outcome.{done, bind-done, done-injective}
use lbex.Runtime.Laws.{none-some}
use lbex.K8s.{IntOrString}
use lbex.Nginx.Context.{HttpContext}
use lbex.Nginx.Http.{Upstream, Location}
use lbex.Ingress.{HttpIngressPath, IngressRule, IngressEx}
use lbex.Ingress.Upstream.{path_or_default, get_name_for_upstream, create_location}
use lbex.Ingress.Generate.{location_for, PathsDraft, ensure_upstream, add_location, add_paths}
use lbex.Ingress.Generate.Upstreams.{
  path_backend, IsUpstreams, IsUpstreams-IsKeyed, Grows, IsEnsured, ensure_upstream-IsEnsured,
}

-- A route: the path of a location, and the name of the upstream that it passes requests to.
abbrev pub Route : Type 0
Route = String × String

abbrev pub route : Location → Route
route loc = (loc.path, loc.upstream.name)

-- The path of a route: the root where none is written.
abbrev pub wanted_path : HttpIngressPath → String
wanted_path path = if path.path == "" then "/" else path.path

-- The name of the upstream for a service of an ingress and a host.
abbrev pub backend_name : IngressEx → String → String → String
backend_name ex host service =
    ex.ingress.namespace ⧺ "-" ⧺ ex.ingress.name ⧺ "-" ⧺ host ⧺ "-" ⧺ service

abbrev pub is_root : HttpIngressPath → Bool
is_root path = wanted_path path == "/"

-- The upstream of the location is one of the map.
abbrev pub Refers : Dict Upstream → Location → Type 0
Refers m loc = get loc.upstream.name m ≡ some loc.upstream

module _ (ex : IngressEx) where
  abbrev pub path_route : String → HttpIngressPath → Route
  path_route host path = (wanted_path path, backend_name ex host path.backend.service_name)

module _ (port_string : IntOrString → String) (cfg : HttpContext) (ex : IngressEx) where
  -- A location whose upstream is in the map has its name, and refers to it.
  pub location_for-Refers :
      (m : Dict Upstream) (path name service : String)
      → IsUpstreams port_string ex m
      → get name m ≢ none
      → (route (location_for cfg ex.ingress m path name service) ≡ (path, name))
        × Refers m (location_for cfg ex.ingress m path name service)
  unfolding location_for create_location
  location_for-Refers m path name service h present = elim (Option-cases (get name m)) [
    | inl missing ↦ absurd (present missing)
    | inr (u, found) ↦
        let named : u.name ≡ name = IsUpstreams-IsKeyed port_string ex m h name u found in
        rw found (ap (λ n. (path, n)) named, subst (λ n. get n m ≡ some u) (sym named) found)
  ]

  pub Grows-present :
      (m m' : Dict Upstream) (k : String)
      → Grows port_string ex m m'
      → get k m ≢ none
      → get k m' ≢ none
  Grows-present m m' k grows present missing = elim (Option-cases (get k m)) [
    | inl gone ↦ present gone
    | inr (u, found) ↦ none-some (sym missing ∙ grows k u found)
  ]

  pub Grows-Refers :
      (m m' : Dict Upstream) (locs : List Location)
      → Grows port_string ex m m'
      → All (Refers m) locs
      → All (Refers m') locs
  Grows-Refers m m' locs grows =
      All-imp (λ loc refers. grows loc.upstream.name loc.upstream refers) locs

  -- What the loop over the paths makes of its locals.
  pub record IsAdded (host : String) (paths : List HttpIngressPath) (d d' : PathsDraft)
      : Type 0 where
    pub upstreams : IsUpstreams port_string ex d'.upstreams
    pub grows : Grows port_string ex d.upstreams d'.upstreams
    pub refers : All (Refers d'.upstreams) d'.locations
    pub routes : map route d'.locations ≡ map route d.locations ++ map (path_route ex host) paths
    pub root : d'.root_location ≡ any is_root paths || d.root_location

  add_location-IsAdded :
      (host : String) (path : HttpIngressPath) (d : PathsDraft) (m : Dict Upstream)
      → IsEnsured port_string ex
          (get_name_for_upstream ex.ingress host path.backend.service_name)
          d.upstreams
          m
      → All (Refers d.upstreams) d.locations
      → IsAdded host (path ∷ []) d (add_location port_string cfg ex host path d m)
  unfolding add_location location_for create_location
  add_location-IsAdded host path d m ensured refers =
      let service = path.backend.service_name in
      let (new_route, new_refers) =
        location_for-Refers m (path_or_default path.path)
          (get_name_for_upstream ex.ingress host service) service ensured.upstreams
          ensured.present in
      record {
        upstreams = ensured.upstreams;
        grows = ensured.grows;
        refers =
            All-append (Refers m) d.locations _
              (Grows-Refers d.upstreams m d.locations ensured.grows refers) (new_refers, tt);
        routes =
            map-append route d.locations _ ∙ ap (λ r. map route d.locations ++ r ∷ []) new_route;
        root = ground arith;
      }

  IsAdded-trans :
      (host : String) (path : HttpIngressPath) (paths : List HttpIngressPath)
      (d step d' : PathsDraft)
      → IsAdded host (path ∷ []) d step
      → IsAdded host paths step d'
      → IsAdded host (path ∷ paths) d d'
  IsAdded-trans host path paths d step d' first rest = record {
    upstreams = rest.upstreams;
    grows = λ k u found. rest.grows k u (first.grows k u found);
    refers = rest.refers;
    routes =
        rest.routes
        ∙ (ap (λ rs. rs ++ map (path_route ex host) paths) first.routes
            ∙ append_assoc (map route d.locations) (path_route ex host path ∷ [])
                (map (path_route ex host) paths));
    root = ground (arith, first.root, rest.root);
  }

  pub add_paths-IsAdded :
      (rule : IngressRule) (all paths : List HttpIngressPath)
      → Elem rule ex.ingress.rules
      → rule.http ≡ some all
      → ((path : HttpIngressPath) → Elem path paths → Elem path all)
      → (d d' : PathsDraft) → IsUpstreams port_string ex d.upstreams
      → All (Refers d.upstreams) d.locations
      → add_paths port_string cfg ex rule.host paths d ≡ done d'
      → IsAdded rule.host paths d d'
  unfolding add_paths
  add_paths-IsAdded rule all [] in_rules http within d d' h refers ended =
      subst (IsAdded rule.host [] d) (done-injective ended) (record {
        upstreams = h;
        grows = λ k u found. found;
        refers = refers;
        routes = sym (append-nil (map route d.locations));
        root = refl;
      })
  add_paths-IsAdded rule all (path ∷ paths) in_rules http within d d' h refers ended =
      let name = get_name_for_upstream ex.ingress rule.host path.backend.service_name in
      let (m, e, f) =
        bind-done (ensure_upstream port_string cfg ex name path.backend d.upstreams) _ d' ended in
      let named = path_backend rule all path in_rules http (within path (inl refl)) in
      let first =
        add_location-IsAdded rule.host path d m
          (ensure_upstream-IsEnsured port_string ex cfg rule.host name path.backend d.upstreams m
            refl named h e)
          refers in
      IsAdded-trans rule.host path paths d (add_location port_string cfg ex rule.host path d m) d'
        first
        (add_paths-IsAdded rule all paths in_rules http (λ p there. within p (inr there)) _ d'
          first.upstreams first.refers f)
