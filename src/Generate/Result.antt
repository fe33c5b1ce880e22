-- ===== src/Generate/Result.antt =====
-- The stream configuration that generateStreamNginxConfig returns.
use lbex.Prelude.{
  String, ◌≡◌, refl, sym, subst, ◌∙◌, ap, ◌≢◌, ◌↔◌, inl, inr, Option, none, some, [], map, Elem,
  Elem-map, Distinct, All, All-imp,
}
use lbex.Prelude.Int.{ℤ}
use lbex.Prelude.Text.{itoa, equal_fold}
use lbex.Prelude.Dict.{get}
use lbex.Runtime.{Runtime}
use lbex.Runtime.Laws.{none-some, Elem-All, values_iff, found-values, values-Distinct}
use lbex.K8s.{v1_service}
use lbex.Annotations.{Error, get_int_annotation}
use lbex.Nginx.{
  Target, ServiceSpec, StreamUpstreamServer, StreamUpstream, StreamServer, StreamNginxConfig,
}
use lbex.Configurator.{State}
use lbex.Generate.{
  udp_proto, port_annotation, listening, new_servers, Draft, draft, generate_stream_nginx_config,
}
use lbex.Generate.Upstreams.{upstream_name}
use lbex.Generate.Servers.{plain, Reaches}
use lbex.Generate.Gather.{ReachesSome, gather_sound, gather_complete}
use lbex.Generate.Round.{servers_of, HasDirective, IsDraft}
use lbex.Generate.Loop.{
  gather, nodes-draft, draft-IsDraft, servers_of-draft, draft-present, draft-origin, draft-served,
}

abbrev no_draft : Draft
no_draft = record { upstreams = []; servers = [] }

no_draft-IsDraft : (svc : ServiceSpec) → IsDraft svc no_draft
unfolding get
no_draft-IsDraft svc = record {
  is_map = tt;
  keyed = λ k u h. cc;
  directive = λ k u h. cc;
  referenced = tt;
}

-- No two upstreams share a name, each has the directive that the service asks for, and each server
-- passes its traffic to an upstream of the configuration.
pub record IsConsistent (svc : ServiceSpec) (config : StreamNginxConfig) : Type 0 where
  pub names_distinct : Distinct (map (λ (u : StreamUpstream). u.name) config.upstreams)
  pub directives : All (HasDirective svc) config.upstreams
  pub references :
      All
        (λ s. Elem s.proxy_pass_address (map (λ (u : StreamUpstream). u.name) config.upstreams))
        config.servers

module _ (rt : Runtime) (svc : ServiceSpec) (st : State) where
  abbrev final : Draft
  final = (draft rt svc svc.topology no_draft st).0

  abbrev config : StreamNginxConfig
  config = (generate_stream_nginx_config rt svc st).0

  final-IsDraft : IsDraft svc final
  final-IsDraft = draft-IsDraft svc st rt svc.topology no_draft st (no_draft-IsDraft svc)

  -- An upstream of the configuration is what the final draft holds under its name.
  upstream_iff :
      (u : StreamUpstream) → Elem u config.upstreams ↔ (get u.name final.upstreams ≡ some u)
  unfolding generate_stream_nginx_config
  upstream_iff =
      values_iff (λ u. u.name) rt final.upstreams final-IsDraft.is_map final-IsDraft.keyed

  found-Elem :
      (k : String)
      → get k final.upstreams ≢ none
      → (u : StreamUpstream) × Elem u config.upstreams × (u.name ≡ k)
  unfolding generate_stream_nginx_config
  found-Elem =
      found-values (λ u. u.name) rt final.upstreams final-IsDraft.is_map final-IsDraft.keyed

  named-Elem :
      (k : String)
      → (u : StreamUpstream) × Elem u config.upstreams × (u.name ≡ k)
      → Elem k (map (λ (u : StreamUpstream). u.name) config.upstreams)
  named-Elem k (u, there, named) =
      subst (λ j. Elem j (map (λ (v : StreamUpstream). v.name) config.upstreams)) named
        (Elem-map (λ (v : StreamUpstream). v.name) u config.upstreams there)

  -- In the generated configuration, whatever the service, its targets and the order of the runtime's
  -- maps: no two upstreams share a name; each upstream has the algorithm of the service, not written
  -- for round robin, and for least time the method that the service asks for, or the default where
  -- that is not supported; and each server passes its traffic to an upstream of the configuration.
  pub generate-IsConsistent : IsConsistent svc (generate_stream_nginx_config rt svc st).0
  unfolding generate_stream_nginx_config
  generate-IsConsistent = record {
    names_distinct =
        values-Distinct (λ u. u.name) rt final.upstreams final-IsDraft.is_map final-IsDraft.keyed;
    directives =
        Elem-All (HasDirective svc) config.upstreams
          (λ u there. final-IsDraft.directive u.name u ((upstream_iff u).0 there));
    references =
        All-imp (λ s h. named-Elem s.proxy_pass_address (found-Elem s.proxy_pass_address h))
          final.servers final-IsDraft.referenced;
  }

  -- Each target of the service has an upstream of its name.
  pub generate-covers :
      (t : Target)
      → Elem t svc.topology
      → (u : StreamUpstream) × Elem u (generate_stream_nginx_config rt svc st).0.upstreams
        × (u.name ≡ upstream_name svc t)
  unfolding generate_stream_nginx_config
  generate-covers t there =
      found-Elem (upstream_name svc t)
        (draft-present svc st rt svc.topology no_draft st t refl there)

  gathered :
      (u : StreamUpstream)
      → Elem u (generate_stream_nginx_config rt svc st).0.upstreams
      → u.upstream_servers ≡ gather svc st rt u.name svc.topology
  unfolding generate_stream_nginx_config get
  gathered u there =
      sym (ap servers_of ((upstream_iff u).0 there))
      ∙ servers_of-draft svc st rt svc.topology no_draft st u.name refl

  -- Each target of the service has an upstream of its name, with a server at each address at which
  -- NGINX reaches the target.
  pub generate-serves :
      (t : Target)
      → Elem t svc.topology
      → (u : StreamUpstream) × Elem u (generate_stream_nginx_config rt svc st).0.upstreams
        × (u.name ≡ upstream_name svc t)
        × ((address : String)
            → Reaches svc st.nodes t address
            → Elem (plain address) u.upstream_servers)
  generate-serves t there =
      let (u, u_there, named) = generate-covers t there in
      (
        u,
        u_there,
        named,
        λ address reached.
            subst (Elem (plain address)) (sym (gathered u u_there)) (
              gather_complete svc st rt u.name svc.topology address (t, there, sym named, reached)),
      )

  -- Each upstream of the configuration has the name of a target's, and it has servers without
  -- parameters at all the addresses at which NGINX reaches the targets of that name, and no other
  -- server.
  pub generate-upstreams :
      (u : StreamUpstream)
      → Elem u (generate_stream_nginx_config rt svc st).0.upstreams
      → ((t : Target) × Elem t svc.topology × (upstream_name svc t ≡ u.name))
        × ((server : StreamUpstreamServer)
            → Elem server u.upstream_servers ↔ (
                (address : String) × ReachesSome svc st u.name svc.topology address
                × (server ≡ plain address)))
  unfolding generate_stream_nginx_config get
  generate-upstreams u there = (
    elim (draft-origin svc st rt svc.topology no_draft st u.name refl present) [
      | inl before ↦ absurd (before refl)
      | inr origin ↦ origin
    ],
    λ server. (
      λ h.
          gather_sound svc st rt u.name svc.topology server
            (subst (Elem server) (gathered u there) h),
      λ (address, reached, same). subst (Elem server) (sym (gathered u there)) (
          subst (λ v. Elem v (gather svc st rt u.name svc.topology)) (sym same)
            (gather_complete svc st rt u.name svc.topology address reached)),
    ),
  )
    where
      found : get u.name final.upstreams ≡ some u
      found = (upstream_iff u).0 there

      present : get u.name final.upstreams ≢ none
      present missing = none-some (sym missing ∙ found)

  -- A server that a target gives: its port is the number in the target's annotation, it speaks UDP
  -- exactly for a target of that protocol, and it passes its traffic to the target's upstream.
  abbrev pub Serves : StreamServer → Target → Type 0
  Serves s t =
      (listen_port : ℤ) × (get_int_annotation (port_annotation t) (v1_service svc.service)
        ≡ (listen_port, none))
      × (s.listen.port ≡ itoa listen_port)
      × (s.listen.udp ≡ equal_fold t.protocol udp_proto)
      × (s.proxy_pass_address ≡ upstream_name svc t)

  -- Each server of the configuration is one that a target of the service gives.
  pub generate-servers :
      (s : StreamServer)
      → Elem s (generate_stream_nginx_config rt svc st).0.servers
      → (t : Target) × Elem t svc.topology × Serves s t
  unfolding generate_stream_nginx_config new_servers
  generate-servers s there = elim (draft-served svc st rt svc.topology no_draft st s refl there) [
    | inl before ↦ absurd before
    | inr (t, t_there, new) ↦ (
      t,
      t_there,
      by_number t (get_int_annotation (port_annotation t) (v1_service svc.service)) refl new,
    )
  ]
    where
      by_number :
          (t : Target) (r : ℤ × Option Error)
          → get_int_annotation (port_annotation t) (v1_service svc.service) ≡ r
          → Elem s (listening svc t (upstream_name svc t) r)
          → Serves s t
      by_number t (i, none) e (inl same) = (
        i,
        e,
        ap (λ (v : StreamServer). v.listen.port) same,
        ap (λ (v : StreamServer). v.listen.udp) same,
        ap (λ (v : StreamServer). v.proxy_pass_address) same,
      )
      by_number t (i, none) e (inr none_left) = absurd none_left
      by_number t (i, some err) e none_left = absurd none_left

  -- Generating a configuration leaves the cache of nodes as it is.
  pub nodes-generate : (generate_stream_nginx_config rt svc st).1.nodes ≡ st.nodes
  unfolding generate_stream_nginx_config
  nodes-generate = nodes-draft svc st rt svc.topology no_draft st refl
