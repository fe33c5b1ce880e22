-- ===== src/Generate/Loop.antt =====
-- The loop of generateStreamNginxConfig over the topology, by induction on the targets.
use mathlib.Core.List.{append_assoc, append-nil}
use lbex.Prelude.{
  String, ◌≡◌, refl, sym, subst, ◌∙◌, ap, ◌≢◌, ◌⊎◌, inl, inr, Bool, true, false, none, List, [],
  ◌∷◌, ◌++◌, ◌==◌, Elem, append-Elem, String-cases, if◌then◌else◌,
}
use lbex.Prelude.Dict.{get}
use lbex.Runtime.{Runtime, after_range}
use lbex.Nginx.{Target, ServiceSpec, StreamUpstreamServer, StreamUpstream, StreamServer}
use lbex.Configurator.{State}
use lbex.Streams.{create_stream_upstream}
use lbex.Generate.{new_servers, Draft, add_upstream, draft}
use lbex.Generate.Upstreams.{
  upstream_name, upstream_of, upstream_of-name, nodes-create_stream_upstream, upstream_of-nodes,
  get-add_upstream,
}
use lbex.Generate.Round.{
  servers_of, IsDraft, create_stream_upstream-IsFresh, servers_of-add_upstream, add_upstream-keeps,
  add_upstream-present, servers-add_upstream, add_upstream-IsDraft,
}

module _ (svc : ServiceSpec) (st : State) where
  -- The servers of all targets whose upstream has the name, in the order of the targets, each with
  -- the range of its own turn.
  abbrev pub gather : Runtime → String → List Target → List StreamUpstreamServer
  gather rt name [] = []
  gather rt name (target ∷ rest) =
      (if upstream_name svc target == name
        then (upstream_of rt svc st target).upstream_servers
        else [])
      ++ gather (after_range rt) name rest

  -- The state that the loop carries keeps the nodes, so that a target gives the same upstream in it.
  abbrev next : Runtime → State → Target → State
  next rt st' target = (create_stream_upstream rt svc target st').1

  abbrev SameNodes : State → Type 0
  SameNodes st' = st'.nodes ≡ st.nodes

  next-SameNodes :
      (rt : Runtime) (st' : State) (target : Target)
      → SameNodes st'
      → SameNodes (next rt st' target)
  next-SameNodes rt st' target e = nodes-create_stream_upstream rt svc target st' ∙ e

  up-next :
      (rt : Runtime) (st' : State) (target : Target)
      → SameNodes st'
      → upstream_of rt svc st' target ≡ upstream_of rt svc st target
  up-next rt st' target e = upstream_of-nodes rt svc target st' st e

  -- the draft after one round
  abbrev step : Runtime → State → Target → Draft → Draft
  step rt st' target d = add_upstream svc target (upstream_of rt svc st' target) d

  pub nodes-draft :
      (rt : Runtime) (ts : List Target) (d : Draft) (st' : State)
      → SameNodes st'
      → SameNodes (draft rt svc ts d st').1
  unfolding draft
  nodes-draft rt [] d st' e = e
  nodes-draft rt (t ∷ ts) d st' e =
      nodes-draft (after_range rt) ts (step rt st' t d) (next rt st' t) (next-SameNodes rt st' t e)

  pub draft-IsDraft :
      (rt : Runtime) (ts : List Target) (d : Draft) (st' : State)
      → IsDraft svc d
      → IsDraft svc (draft rt svc ts d st').0
  unfolding draft
  draft-IsDraft rt [] d st' h = h
  draft-IsDraft rt (t ∷ ts) d st' h =
      draft-IsDraft (after_range rt) ts (step rt st' t d) (next rt st' t) (
        add_upstream-IsDraft svc t (upstream_of rt svc st' t) d h
          (create_stream_upstream-IsFresh rt svc st' t))

  -- The servers under a name are those that were there and those of the name's targets, in order.
  pub servers_of-draft :
      (rt : Runtime) (ts : List Target) (d : Draft) (st' : State) (k : String)
      → SameNodes st'
      → servers_of (get k (draft rt svc ts d st').0.upstreams)
        ≡ servers_of (get k d.upstreams) ++ gather rt k ts
  unfolding draft
  servers_of-draft rt [] d st' k e = sym (append-nil _)
  servers_of-draft rt (t ∷ ts) d st' k e =
      servers_of-draft (after_range rt) ts (step rt st' t d) (next rt st' t) k
        (next-SameNodes rt st' t e)
      ∙ (ap (λ xs. xs ++ gather (after_range rt) k ts)
            (servers_of-add_upstream svc t (upstream_of rt svc st' t) d k
              ∙ ap
                  (λ (u : StreamUpstream).
                    servers_of (get k d.upstreams)
                    ++ (if u.name == k then u.upstream_servers else []))
                  (up-next rt st' t e)
              ∙ ap
                  (λ name.
                    servers_of (get k d.upstreams)
                    ++ (if name == k then (upstream_of rt svc st t).upstream_servers else []))
                  (upstream_of-name rt svc t st))
          ∙ append_assoc (servers_of (get k d.upstreams)) _ _)

  pub draft-keeps :
      (rt : Runtime) (ts : List Target) (d : Draft) (st' : State) (k : String)
      → get k d.upstreams ≢ none
      → get k (draft rt svc ts d st').0.upstreams ≢ none
  unfolding draft
  draft-keeps rt [] d st' k h = h
  draft-keeps rt (t ∷ ts) d st' k h =
      draft-keeps (after_range rt) ts (step rt st' t d) (next rt st' t) k
        (add_upstream-keeps svc t (upstream_of rt svc st' t) d k h)

  -- Each target of the topology has its upstream,
  pub draft-present :
      (rt : Runtime) (ts : List Target) (d : Draft) (st' : State) (t : Target)
      → SameNodes st'
      → Elem t ts
      → get (upstream_name svc t) (draft rt svc ts d st').0.upstreams ≢ none
  unfolding draft
  draft-present rt [] d st' t e h = absurd h
  draft-present rt (s ∷ ts) d st' t e (inl here) =
      draft-keeps (after_range rt) ts (step rt st' s d) (next rt st' s) (upstream_name svc t) (
        subst (λ k. get k (step rt st' s d).upstreams ≢ none)
          (upstream_of-name rt svc s st' ∙ ap (upstream_name svc) (sym here))
          (add_upstream-present svc s (upstream_of rt svc st' s) d))
  draft-present rt (s ∷ ts) d st' t e (inr there) =
      draft-present (after_range rt) ts (step rt st' s d) (next rt st' s) t
        (next-SameNodes rt st' s e) there

  added-origin :
      (rt : Runtime) (s : Target) (d : Draft) (st' : State) (k : String)
      → SameNodes st'
      → get k (step rt st' s d).upstreams ≢ none
      → (get k d.upstreams ≢ none) ⊎ (upstream_name svc s ≡ k)
  added-origin rt s d st' k e h = elim (String-cases (upstream_of rt svc st' s).name k) [
    | inl (named, same) ↦ inr (sym (upstream_of-name rt svc s st') ∙ named)
    | inr (unlike, other) ↦ inl (λ missing. h (rw (get-add_upstream, other) missing))
  ]

  -- and there is no other upstream.
  pub draft-origin :
      (rt : Runtime) (ts : List Target) (d : Draft) (st' : State) (k : String)
      → SameNodes st'
      → get k (draft rt svc ts d st').0.upstreams ≢ none
      → (get k d.upstreams ≢ none) ⊎ ((t : Target) × Elem t ts × (upstream_name svc t ≡ k))
  unfolding draft
  draft-origin rt [] d st' k e h = inl h
  draft-origin rt (s ∷ ts) d st' k e h =
      elim (draft-origin (after_range rt) ts (step rt st' s d) (next rt st' s) k
        (next-SameNodes rt st' s e) h) [
          | inl before ↦ elim (added-origin rt s d st' k e before) [
            | inl old ↦ inl old
            | inr named ↦ inr (s, inl refl, named)
          ]
          | inr (t, there, named) ↦ inr (t, inr there, named)
        ]

  step-served :
      (rt : Runtime) (t : Target) (d : Draft) (st' : State) (s : StreamServer)
      → SameNodes st'
      → Elem s (step rt st' t d).servers
      → Elem s d.servers ⊎ Elem s (new_servers svc t (upstream_name svc t))
  step-served rt t d st' s e h =
      elim (append-Elem s d.servers _
        (subst (Elem s) (servers-add_upstream svc t (upstream_of rt svc st' t) d) h)) [
          | inl old ↦ inl old
          | inr new ↦ inr (
              subst (λ name. Elem s (new_servers svc t name)) (upstream_of-name rt svc t st')
                (if_new _ new))
        ]
    where
      if_new :
          (b : Bool)
          → Elem s (if b then new_servers svc t (upstream_of rt svc st' t).name else [])
          → Elem s (new_servers svc t (upstream_of rt svc st' t).name)
      if_new true k = k
      if_new false k = absurd k

  -- Each server comes from a target.
  pub draft-served :
      (rt : Runtime) (ts : List Target) (d : Draft) (st' : State) (s : StreamServer)
      → SameNodes st'
      → Elem s (draft rt svc ts d st').0.servers
      → Elem s d.servers
        ⊎ ((t : Target) × Elem t ts × Elem s (new_servers svc t (upstream_name svc t)))
  unfolding draft
  draft-served rt [] d st' s e h = inl h
  draft-served rt (t ∷ ts) d st' s e h =
      elim (draft-served (after_range rt) ts (step rt st' t d) (next rt st' t) s
        (next-SameNodes rt st' t e) h) [
          | inl before ↦ elim (step-served rt t d st' s e before) [
            | inl old ↦ inl old
            | inr new ↦ inr (t, inl refl, new)
          ]
          | inr (t', there, new) ↦ inr (t', inr there, new)
        ]
