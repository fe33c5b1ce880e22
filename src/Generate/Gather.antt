-- ===== src/Generate/Gather.antt =====
-- Which servers stand under one name in what generateStreamNginxConfig builds.
use lbex.Prelude.{
  String, ◌≡◌, refl, sym, ◌∙◌, ap, subst, inl, inr, List, [], ◌∷◌, ◌==◌, Elem, Elem-append,
  append-Elem, String-cases, if◌then◌else◌,
}
use lbex.Runtime.{Runtime, after_range}
use lbex.Nginx.{Target, ServiceSpec, StreamUpstreamServer}
use lbex.Configurator.{State}
use lbex.Generate.Upstreams.{upstream_name, upstream_of}
use lbex.Generate.Loop.{gather}
use lbex.Generate.Servers.{plain, Reaches, equal, if-true, servers_sound, servers_complete}

module _ (svc : ServiceSpec) (st : State) where
  -- The address serves a target of the list whose upstream has the name.
  abbrev pub ReachesSome : String → List Target → String → Type 0
  ReachesSome name ts address =
      (t : Target) × Elem t ts × (upstream_name svc t ≡ name) × Reaches svc st.nodes t address

  abbrev of_target : Runtime → String → Target → List StreamUpstreamServer
  of_target rt name t =
      if upstream_name svc t == name then (upstream_of rt svc st t).upstream_servers else []

  of_target_sound :
      (rt : Runtime) (name : String) (t : Target) (srv : StreamUpstreamServer)
      → Elem srv (of_target rt name t)
      → (upstream_name svc t ≡ name)
        × ((address : String) × Reaches svc st.nodes t address × (srv ≡ plain address))
  of_target_sound rt name t srv h = elim (String-cases (upstream_name svc t) name) [
    | inl (e, same) ↦ (e, servers_sound rt svc st t srv (rw same at h))
    | inr (ne, other) ↦ absurd (rw other at h)
  ]

  of_target_complete :
      (rt : Runtime) (name : String) (t : Target) (address : String)
      → upstream_name svc t ≡ name
      → Reaches svc st.nodes t address
      → Elem (plain address) (of_target rt name t)
  of_target_complete rt name t address e h =
      subst (Elem (plain address)) (sym (if-true (upstream_name svc t == name) _ _ (equal e)))
        (servers_complete rt svc st t address h)

  -- The servers that are gathered under a name stand at the addresses of the targets of that name,
  pub gather_sound :
      (rt : Runtime) (name : String) (ts : List Target) (srv : StreamUpstreamServer)
      → Elem srv (gather svc st rt name ts)
      → (address : String) × ReachesSome name ts address × (srv ≡ plain address)
  gather_sound rt name [] srv h = absurd h
  gather_sound rt name (t ∷ ts) srv h = elim (append-Elem srv (of_target rt name t) _ h) [
    | inl first ↦
        let (named, (address, reached, same)) = of_target_sound rt name t srv first in
        (address, (t, inl refl, named, reached), same)
    | inr later ↦
        let (address, (t', there, named, reached), same) =
          gather_sound (after_range rt) name ts srv later in
        (address, (t', inr there, named, reached), same)
  ]

  -- and at each of them there is one.
  pub gather_complete :
      (rt : Runtime) (name : String) (ts : List Target) (address : String)
      → ReachesSome name ts address
      → Elem (plain address) (gather svc st rt name ts)
  gather_complete rt name [] address (t, there, named, reached) = absurd there
  gather_complete rt name (s ∷ ts) address (t, inl here, named, reached) =
      Elem-append (plain address) (of_target rt name s) _ (
        inl (
          of_target_complete rt name s address (ap (upstream_name svc) (sym here) ∙ named)
            (subst (λ x. Reaches svc st.nodes x address) here reached)))
  gather_complete rt name (s ∷ ts) address (t, inr there, named, reached) =
      Elem-append (plain address) (of_target rt name s) _
        (inr (gather_complete (after_range rt) name ts address (t, there, named, reached)))
