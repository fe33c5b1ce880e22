-- ===== src/Ingress/Generate/Upstreams.antt =====
-- The map of upstreams that generateNginxIngressCfg of nginx/configurator.go fills.
use lbex.Prelude.{
  String, ◌≡◌, refl, sym, subst, ◌∙◌, ◌≢◌, inl, inr, Option, none, some, List, [], ◌∷◌, Elem,
  String-cases, arith, eq_iff, eq_refl,
}
use Prim.Native.String.{◌++◌ as ◌⧺◌}
use lbex.Prelude.Dict.{Dict, get, put, IsMap, put-IsMap, get-put}
use lbex.Outcome.{Outcome, done, ◌>>=◌, bind-done, done-injective}
use lbex.Runtime.Laws.{none-some, IsKeyed}
use lbex.K8s.{IntOrString}
use lbex.Nginx.Context.{HttpContext}
use lbex.Nginx.Http.{UpstreamServer, Upstream, new_upstream_with_default_server}
use lbex.Ingress.{IngressBackend, HttpIngressPath, IngressRule, IngressEx}
use lbex.Ingress.Upstream.{
  empty_host, get_name_for_upstream, upstream_servers, with_servers, create_upstream,
}
use lbex.Ingress.Generate.{ensure_upstream}

-- The ingress names the backend: as its default, or in a path of a rule for the host.
pub data IsBackend (ex : IngressEx) : String → IngressBackend → Type 0 where
  default_backend :
      (backend : IngressBackend)
      → ex.ingress.backend ≡ some backend
      → IsBackend ex empty_host backend
  path_backend :
      (rule : IngressRule) (paths : List HttpIngressPath) (path : HttpIngressPath)
      → Elem rule ex.ingress.rules
      → rule.http ≡ some paths
      → Elem path paths
      → IsBackend ex rule.host path.backend

with_servers-named :
    (ups : Upstream) (servers : List UpstreamServer)
    → ups.upstream_servers ≢ []
    → ((with_servers ups servers).name ≡ ups.name)
      × ((with_servers ups servers).upstream_servers ≢ [])
unfolding with_servers
with_servers-named ups [] h = (refl, h)
with_servers-named ups (server ∷ servers) h = (refl, λ e. cc)

module _ (port_string : IntOrString → String) (ex : IngressEx) where
  -- An upstream has the name that it is created with, and at least one server.
  pub create_upstream-named :
      (name : String) (backend : IngressBackend) (u : Upstream)
      → create_upstream port_string ex name backend ≡ done u
      → (u.name ≡ name) × (u.upstream_servers ≢ [])
  unfolding create_upstream new_upstream_with_default_server
  create_upstream-named name backend u h =
      by_endpoints (get (backend.service_name ⧺ port_string backend.service_port) ex.endpoints) h
    where
      by_endpoints :
          (endps : Option (List String))
          → (elim endps as (λ x. Outcome Upstream) [
            | none ↦ done (new_upstream_with_default_server name)
            | some endps ↦ upstream_servers endps >>= λ servers.
                done (with_servers (new_upstream_with_default_server name) servers)
          ])
            ≡ done u
          → (u.name ≡ name) × (u.upstream_servers ≢ [])
      by_endpoints none h = (cc, λ e. cc)
      by_endpoints (some endps) h =
          let (servers, e, f) = bind-done (upstream_servers endps) _ u h in
          let (named, some_server) =
            with_servers-named (new_upstream_with_default_server name) servers (λ e. cc) in
          (cc, λ e. some_server cc)

  -- The upstream is the one that is created under the name, for a backend of the ingress.
  abbrev pub Origin : String → Upstream → Type 0
  Origin k u =
      (host : String) × (backend : IngressBackend) × IsBackend ex host backend
      × (k ≡ get_name_for_upstream ex.ingress host backend.service_name)
      × (create_upstream port_string ex k backend ≡ done u)

  -- Each upstream of the map is the one that is created for a backend of the ingress, under its name.
  pub record IsUpstreams (m : Dict Upstream) : Type 0 where
    pub is_map : IsMap m
    pub origin : (k : String) (u : Upstream) → get k m ≡ some u → Origin k u

  -- Each upstream is held under its own name.
  pub IsUpstreams-IsKeyed :
      (m : Dict Upstream) → IsUpstreams m → IsKeyed (λ (u : Upstream). u.name) m
  IsUpstreams-IsKeyed m h k u found =
      let (host, backend, named, e, created) = h.origin k u found in
      (create_upstream-named k backend u created).0

  -- No upstream that the first map has is missing or another in the second.
  abbrev pub Grows : Dict Upstream → Dict Upstream → Type 0
  Grows m m' = (k : String) (u : Upstream) → get k m ≡ some u → get k m' ≡ some u

  pub empty-IsUpstreams : IsUpstreams []
  unfolding get
  empty-IsUpstreams = record { is_map = tt; origin = λ k u found. cc }

  pub put-IsUpstreams :
      (name host : String) (backend : IngressBackend) (u : Upstream) (m : Dict Upstream)
      → name ≡ get_name_for_upstream ex.ingress host backend.service_name
      → IsBackend ex host backend
      → create_upstream port_string ex name backend ≡ done u
      → IsUpstreams m
      → IsUpstreams (put name u m)
  put-IsUpstreams name host backend u m e_name named created h = record {
    is_map = put-IsMap name u m h.is_map;
    origin = λ k v found. elim (String-cases name k) as (λ x. Origin k v) [
      | inl (e, same) ↦
          subst (λ j. Origin j v) e
            (host, backend, named, e_name, ground (arith, created, found, get-put name k u m, same))
      | inr (e, other) ↦ h.origin k v (ground (arith, found, get-put name k u m, other))
    ];
  }

  put-Grows :
      (name : String) (u : Upstream) (m : Dict Upstream)
      → get name m ≡ none
      → Grows m (put name u m)
  put-Grows name u m fresh k v found =
      ground (arith, found, fresh, get-put name k u m, eq_iff name k)

  -- ensure_upstream leaves an upstream under the name, and keeps all that are there.
  pub record IsEnsured (name : String) (m m' : Dict Upstream) : Type 0 where
    pub upstreams : IsUpstreams m'
    pub grows : Grows m m'
    pub present : get name m' ≢ none

  pub ensure_upstream-IsEnsured :
      (cfg : HttpContext) (host name : String) (backend : IngressBackend) (m m' : Dict Upstream)
      → name ≡ get_name_for_upstream ex.ingress host backend.service_name
      → IsBackend ex host backend
      → IsUpstreams m
      → ensure_upstream port_string cfg ex name backend m ≡ done m'
      → IsEnsured name m m'
  unfolding ensure_upstream
  ensure_upstream-IsEnsured cfg host name backend m m' e_name named h ended =
      by_entry (get name m) refl ended
    where
      by_entry :
          (o : Option Upstream)
          → get name m ≡ o
          → (elim o as (λ x. Outcome (Dict Upstream)) [
            | some there ↦ done m
            | none ↦ create_upstream port_string ex name backend >>= λ upstream.
                done (put name upstream m)
          ])
            ≡ done m'
          → IsEnsured name m m'
      by_entry (some there) e f = subst (IsEnsured name m) (done-injective f) (record {
        upstreams = h;
        grows = λ k u found. found;
        present = λ missing. none-some (sym missing ∙ e);
      })
      by_entry none e f =
          let (u, created, g) = bind-done (create_upstream port_string ex name backend) _ m' f in
          subst (IsEnsured name m) (done-injective g) (record {
            upstreams = put-IsUpstreams name host backend u m e_name named created h;
            grows = put-Grows name u m e;
            present = λ missing.
                none-some {a = u}
                  (sym missing ∙ ground (arith, get-put name name u m, eq_refl name));
          })
