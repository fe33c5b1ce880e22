-- ===== src/Topology/Managed.antt =====
-- What getServiceNetworkTopo returns.
use lbex.Prelude.{
  String, ◌≡◌, refl, sym, subst, ◌∙◌, ◌≢◌, ◌⊎◌, inl, inr, List, [], ◌∷◌, Elem, Elem-append,
  append-Elem,
}
use lbex.Outcome.{Outcome, done, halt, ◌>>=◌}
use lbex.Client.{Client, Store}
use lbex.K8s.{V1Service, V1ServicePort}
use lbex.Service.{Endpoint, Service, get_service_name_for_lb_rule}
use lbex.Topology.{get_endpoints, add_target, service_targets}

-- An entry of the result: it stands for a port of the service that has endpoints, and carries them.
pub record IsTarget (c : Client) (endpoint_store : Store) (s : V1Service) (host : String)
    (p : V1ServicePort) (t : Service) : Type 0 where
  pub endpoints : get_endpoints c endpoint_store s p ≡ done t.endpoints
  pub some_endpoint : t.endpoints ≢ []
  pub name : t.name ≡ get_service_name_for_lb_rule s.name p.port
  pub frontend_port : t.frontend_port ≡ p.port
  pub backend_port : t.backend_port ≡ c.int_value p.target_port
  pub host_name : t.host ≡ host

pub done-injective : {A : Type 0} {a b : A} → done a ≡ done b → a ≡ b
done-injective h = cc

module _ (c : Client) (endpoint_store : Store) (s : V1Service) (host : String) where
  abbrev pub FromPort : List V1ServicePort → Service → Type 0
  FromPort ps t = (p : V1ServicePort) × Elem p ps × IsTarget c endpoint_store s host p t

  add_target_sound :
      (p : V1ServicePort) (es : List Endpoint) (acc : List Service) (t : Service)
      → get_endpoints c endpoint_store s p ≡ done es
      → Elem t (add_target c s.name host p es acc)
      → Elem t acc ⊎ IsTarget c endpoint_store s host p t
  unfolding add_target
  add_target_sound p [] acc t h k = inl k
  add_target_sound p (e ∷ es) acc t h k = elim (append-Elem t acc _ k) [
    | inl old ↦ inl old
    | inr (inl new) ↦ inr (record {
      endpoints = h ∙ cc;
      some_endpoint = λ none_left. cc;
      name = cc;
      frontend_port = cc;
      backend_port = cc;
      host_name = cc;
    })
    | inr (inr nothing) ↦ absurd nothing
  ]

  add_target-keeps :
      (p : V1ServicePort) (es : List Endpoint) (acc : List Service) (t : Service)
      → Elem t acc
      → Elem t (add_target c s.name host p es acc)
  unfolding add_target
  add_target-keeps p [] acc t k = k
  add_target-keeps p (e ∷ es) acc t k = Elem-append t acc _ (inl k)

  add_target_complete :
      (p : V1ServicePort) (e : Endpoint) (es : List Endpoint) (acc : List Service)
      → get_endpoints c endpoint_store s p ≡ done (e ∷ es)
      → (t : Service) × Elem t (add_target c s.name host p (e ∷ es) acc)
        × IsTarget c endpoint_store s host p t
  unfolding add_target
  add_target_complete p e es acc h = (
    _,
    Elem-append _ acc _ (inr (inl refl)),
    record {
      endpoints = h;
      some_endpoint = λ none_left. cc;
      name = refl;
      frontend_port = refl;
      backend_port = refl;
      host_name = refl;
    },
  )

  -- An entry that the loop has stays in the result.
  service_targets-keeps :
      (ps : List V1ServicePort) (acc ts : List Service) (t : Service)
      → service_targets c endpoint_store s host ps acc ≡ done ts
      → Elem t acc
      → Elem t ts
  unfolding service_targets
  service_targets-keeps [] acc ts t h k = subst (Elem t) (done-injective h) k
  service_targets-keeps (p ∷ ps) acc ts t h k =
      step (get_endpoints c endpoint_store s p) (λ acc'. service_targets-keeps ps acc' ts t) h
    where
      step :
          (o : Outcome (List Endpoint))
          → ((acc' : List Service)
              → service_targets c endpoint_store s host ps acc' ≡ done ts
              → Elem t acc'
              → Elem t ts)
          → (o >>= λ es.
              service_targets c endpoint_store s host ps (add_target c s.name host p es acc))
            ≡ done ts
          → Elem t ts
      step (done es) ih h' = ih _ h' (add_target-keeps p es acc t k)
      step (halt e) ih h' = cc

  pub service_targets_sound :
      (ps : List V1ServicePort) (acc ts : List Service) (t : Service)
      → service_targets c endpoint_store s host ps acc ≡ done ts
      → Elem t ts
      → Elem t acc ⊎ FromPort ps t
  unfolding service_targets
  service_targets_sound [] acc ts t h k = inl (subst (Elem t) (sym (done-injective h)) k)
  service_targets_sound (p ∷ ps) acc ts t h k =
      step (get_endpoints c endpoint_store s p) refl (λ acc'. service_targets_sound ps acc' ts t) h
    where
      later : FromPort ps t → Elem t acc ⊎ FromPort (p ∷ ps) t
      later (q, here, target) = inr (q, inr here, target)

      step :
          (o : Outcome (List Endpoint))
          → get_endpoints c endpoint_store s p ≡ o
          → ((acc' : List Service)
              → service_targets c endpoint_store s host ps acc' ≡ done ts
              → Elem t ts
              → Elem t acc' ⊎ FromPort ps t)
          → (o >>= λ es.
              service_targets c endpoint_store s host ps (add_target c s.name host p es acc))
            ≡ done ts
          → Elem t acc ⊎ FromPort (p ∷ ps) t
      step (done es) e ih h' = elim (ih _ h' k) [
        | inl there ↦ elim (add_target_sound p es acc t e there) [
          | inl old ↦ inl old
          | inr new ↦ inr (p, inl refl, new)
        ]
        | inr from ↦ later from
      ]
      step (halt stop) e ih h' = cc

  pub service_targets_complete :
      (ps : List V1ServicePort) (acc ts : List Service) (p : V1ServicePort) (e : Endpoint)
      (es : List Endpoint)
      → service_targets c endpoint_store s host ps acc ≡ done ts
      → Elem p ps
      → get_endpoints c endpoint_store s p ≡ done (e ∷ es)
      → (t : Service) × Elem t ts × IsTarget c endpoint_store s host p t
  unfolding service_targets
  service_targets_complete [] acc ts p e es h k g = absurd k
  service_targets_complete (q ∷ ps) acc ts p e es h (inl here) g =
      let (t, there, target) = add_target_complete p e es acc g in
      (t, service_targets-keeps ps _ ts t (first h) there, target)
    where
      first :
          (get_endpoints c endpoint_store s q >>= λ es'.
          service_targets c endpoint_store s host ps (add_target c s.name host q es' acc))
            ≡ done ts
          → service_targets c endpoint_store s host ps (add_target c s.name host p (e ∷ es) acc)
            ≡ done ts
      first h' = rw (← here, g) at h'
  service_targets_complete (q ∷ ps) acc ts p e es h (inr later) g =
      step (get_endpoints c endpoint_store s q)
        (λ acc' h'. service_targets_complete ps acc' ts p e es h' later g) h
    where
      step :
          (o : Outcome (List Endpoint))
          → ((acc' : List Service)
              → service_targets c endpoint_store s host ps acc' ≡ done ts
              → (t : Service) × Elem t ts × IsTarget c endpoint_store s host p t)
          → (o >>= λ es'.
              service_targets c endpoint_store s host ps (add_target c s.name host q es' acc))
            ≡ done ts
          → (t : Service) × Elem t ts × IsTarget c endpoint_store s host p t
      step (done es') ih h' = ih _ h'
      step (halt stop) ih h' = cc
