-- ===== src/Ingress/Upstream/Laws.antt =====
-- When createUpstream of nginx/configurator.go ends, and with which servers.
use lbex.Prelude.{
  String, true, false, ◌≡◌, refl, some, List, [], ◌∷◌, map, All, inl, inr, Option-cases,
}
use Prim.Native.String.{◌++◌ as ◌⧺◌}
use text.Mathlib.TextLemmas.{nil-append, cons-append}
use lbex.Prelude.Dict.{get}
use lbex.Prelude.Split.{contains, split-one, split-first, split-two}
use lbex.Outcome.{done}
use lbex.K8s.{IntOrString}
use lbex.Nginx.Http.{UpstreamServer, Upstream, new_upstream_with_default_server}
use lbex.Ingress.{IngressBackend, IngressEx}
use lbex.Ingress.Upstream.{upstream_server, upstream_servers, with_servers, create_upstream}

-- The text of an endpoint, as the ingress lists it.
abbrev pub endpoint_text : UpstreamServer → String
endpoint_text server = server.address ⧺ ":" ⧺ server.port

-- Neither the address nor the port has a colon.
abbrev pub IsPlain : UpstreamServer → Type 0
IsPlain server = (contains b':' server.address ≡ false) × (contains b':' server.port ≡ false)

abbrev pub HasColon : String → Type 0
HasColon endp = contains b':' endp ≡ true

upstream_servers-text :
    (servers : List UpstreamServer)
    → All IsPlain servers
    → upstream_servers (map endpoint_text servers) ≡ done servers
unfolding upstream_servers upstream_server
upstream_servers-text [] h = refl
upstream_servers-text (server ∷ servers) ((address, port), h) =
    rw
      (
        upstream_servers,
        cons-append,
        nil-append,
        split-first b':' server.address ":" server.port address refl,
        split-one b':' server.port port,
        upstream_servers-text servers h,
      )
      refl

upstream_servers-ends :
    (endps : List String)
    → All HasColon endps
    → (servers : List UpstreamServer) × (upstream_servers endps ≡ done servers)
unfolding upstream_servers upstream_server
upstream_servers-ends [] h = ([], refl)
upstream_servers-ends (endp ∷ endps) (colon, h) =
    let (first, second, more, e) = split-two b':' endp colon in
    let (servers, f) = upstream_servers-ends endps h in
    (record { address = first; port = second } ∷ servers, rw (upstream_servers, e, f) refl)

module _ (port_string : IntOrString → String) (ex : IngressEx) where
  -- The endpoints that are listed for a backend, where there are any, come back as the servers of
  -- its upstream, in their order, if no address or port has a colon of its own.
  pub create_upstream_roundtrip :
      (name : String) (backend : IngressBackend) (server : UpstreamServer)
      (servers : List UpstreamServer)
      → All IsPlain (server ∷ servers)
      → get (backend.service_name ⧺ port_string backend.service_port) ex.endpoints
        ≡ some (map endpoint_text (server ∷ servers))
      → create_upstream port_string ex name backend
        ≡ done (record { name = name; upstream_servers = server ∷ servers })
  unfolding create_upstream with_servers
  create_upstream_roundtrip name backend server servers plain listed =
      rw (create_upstream, listed, upstream_servers-text (server ∷ servers) plain) refl

  -- Every endpoint that the ingress lists has a colon.
  abbrev pub HasPorts : Type 0
  HasPorts =
      (key : String) (endps : List String) → get key ex.endpoints ≡ some endps → All HasColon endps

  pub create_upstream-ends :
      HasPorts
      → (name : String) (backend : IngressBackend)
      → (u : Upstream) × (create_upstream port_string ex name backend ≡ done u)
  unfolding create_upstream
  create_upstream-ends colons name backend =
      elim (Option-cases
        (get (backend.service_name ⧺ port_string backend.service_port) ex.endpoints)) [
          | inl missing ↦
              (new_upstream_with_default_server name, rw (create_upstream, missing) refl)
          | inr (endps, listed) ↦
              let (servers, e) = upstream_servers-ends endps (colons _ endps listed) in
              (
                with_servers (new_upstream_with_default_server name) servers,
                rw (create_upstream, listed, e) refl,
              )
        ]
