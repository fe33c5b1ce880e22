-- ===== src/Topology/Result.antt =====
-- What getServiceNetworkTopo returns: the entries of the managed services' ports, and no others.
use lbex.Prelude.{
  String, ◌≡◌, refl, sym, subst, ◌∙◌, ◌≢◌, ◌⊎◌, inl, inr, Bool, true, false, not, List, [], ◌∷◌,
  arith, ◌==◌, eq_iff, Elem, Elem-perm, if◌then◌else◌, ◌&&◌,
}
use mathlib.Core.List.Permᴰ
use lbex.Prelude.Dict.{get}
use lbex.Runtime.{Runtime}
use lbex.Outcome.{Outcome, done, halt, ◌>>=◌}
use lbex.Client.{Client, Store, Lookup, found, absent, failed}
use lbex.Config.{Config}
use lbex.K8s.{Object, v1_service, V1Service, V1ServicePort}
use lbex.Annotations.{lbex_pool_key, lbex_host_key}
use lbex.Annotations.Laws.{value_or_empty, get_optional_string-service}
use lbex.Service.{Endpoint, Service}
use lbex.Selection.{check_affinity, base_check}
use lbex.Selection.Laws.{IsSelected, base_check-service, base_check_off}
use lbex.Topology.{
  get_endpoints, service_targets, object_topo, service_by_name, service_topo,
  get_service_network_topo,
}
use lbex.Topology.Managed.{
  IsTarget, FromPort, done-injective, service_targets_sound, service_targets_complete,
}

abbrev pub pool_of : V1Service → String
pool_of s = value_or_empty (get lbex_pool_key s.annotations)

abbrev pub host_of : V1Service → String
host_of s = value_or_empty (get lbex_host_key s.annotations)

-- The service under a key is managed: it passes baseCheck, it is the one that --service-name names
-- if that is set, and its pool passes the affinity check.
pub record IsManaged (cfg : Config) (services_store : Store) (key : String) (s : V1Service)
    : Type 0 where
  pub held : services_store.get_by_key key ≡ found (v1_service s)
  pub selected : IsSelected cfg s
  pub named : (cfg.service_name ≡ "") ⊎ (cfg.service_name ≡ s.name)
  pub in_pool : check_affinity cfg (pool_of s) ≡ true

pool_key-ne : lbex_pool_key ≢ ""
pool_key-ne = ground (arith, eq_iff lbex_pool_key "")

host_key-ne : lbex_host_key ≢ ""
host_key-ne = ground (arith, eq_iff lbex_host_key "")

two_tests :
    {A : Type 0} (a b : Bool) (x y : A)
    → (if a then x else if not b then x else y) ≡ (if not a && b then y else x)
two_tests true b x y = refl
two_tests false true x y = refl
two_tests false false x y = refl

if_true : {A : Type 0} {b : Bool} (x y : A) → b ≡ true → (if b then x else y) ≡ x
if_true x y h = rw h

from_ports : {A : Type 0} → ⊥ ⊎ A → A
from_ports (inl h) = absurd h
from_ports (inr a) = a

module _ (rt : Runtime) (c : Client) (cfg : Config) (endpoint_store : Store) where
  abbrev passes : V1Service → Bool
  passes s =
      not (not (cfg.service_name == "") && not (cfg.service_name == s.name))
      && check_affinity cfg (pool_of s)

  service_topo_lem :
      (s : V1Service)
      → service_topo rt c cfg endpoint_store s ≡ (
          if passes s
          then (service_targets c endpoint_store s (host_of s) s.ports [] >>= λ targets.
              done (rt.sort Service service_by_name targets))
          else done [])
  unfolding service_topo
  service_topo_lem s =
      rw
        (
          get_optional_string-service lbex_pool_key s pool_key-ne,
          get_optional_string-service lbex_host_key s host_key-ne,
        )
        (two_tests (not (cfg.service_name == "") && not (cfg.service_name == s.name))
          (check_affinity cfg (pool_of s)) _ _)

  service_topo_sound :
      (s : V1Service) (topo : List Service) (t : Service)
      → service_topo rt c cfg endpoint_store s ≡ done topo
      → Elem t topo
      → ((cfg.service_name ≡ "") ⊎ (cfg.service_name ≡ s.name))
        × (check_affinity cfg (pool_of s) ≡ true)
        × FromPort c endpoint_store s (host_of s) s.ports t
  service_topo_sound s topo t h k =
      by_test (passes s) refl (service_targets c endpoint_store s (host_of s) s.ports []) refl
        (sym (service_topo_lem s) ∙ h)
    where
      by_test :
          (b : Bool)
          → passes s ≡ b
          → (o : Outcome (List Service))
          → service_targets c endpoint_store s (host_of s) s.ports [] ≡ o
          → (if b
              then (o >>= λ targets. done (rt.sort Service service_by_name targets))
              else done [])
            ≡ done topo
          → ((cfg.service_name ≡ "") ⊎ (cfg.service_name ≡ s.name))
            × (check_affinity cfg (pool_of s) ≡ true)
            × FromPort c endpoint_store s (host_of s) s.ports t
      by_test true e (done ts) f h' = (
        ground (arith, eq_iff cfg.service_name "", eq_iff cfg.service_name s.name),
        ground arith,
        from_ports (
            service_targets_sound c endpoint_store s (host_of s) s.ports [] ts t f (
              Elem-perm t (rt.sort-perm Service service_by_name ts)
                (subst (Elem t) (sym (done-injective h')) k))),
      )
      by_test true e (halt stop) f h' = cc
      by_test false e o f h' = absurd (subst (Elem t) (sym (done-injective h')) k)

  -- If getServiceNetworkTopo returns a result for a key, the store has a managed service under the
  -- key wherever there is an entry, and each entry stands for a port of it that has endpoints.
  pub topo_sound :
      (services_store : Store) (key : String) (topo : List Service) (t : Service)
      → get_service_network_topo rt c cfg services_store endpoint_store key ≡ done topo
      → Elem t topo
      → (s : V1Service) × IsManaged cfg services_store key s
        × FromPort c endpoint_store s (host_of s) s.ports t
  unfolding get_service_network_topo
  topo_sound services_store key topo t h k = by_lookup (services_store.get_by_key key) refl h
    where
      none_left : done [] ≡ done topo → ⊥
      none_left e = subst (Elem t) (sym (done-injective e)) k

      by_check :
          (obj : Object)
          → services_store.get_by_key key ≡ found obj
          → (b : Bool) → base_check cfg obj ≡ b
          → (if not b then done [] else object_topo rt c cfg endpoint_store obj) ≡ done topo
          → (s : V1Service) × IsManaged cfg services_store key s
            × FromPort c endpoint_store s (host_of s) s.ports t
      by_check (v1_service s) held true passed h' =
          let (named, in_pool, from) = service_topo_sound s topo t h' k in
          (
            s,
            record {
              held = held;
              selected = (base_check-service cfg s).0 passed;
              named = named;
              in_pool = in_pool;
            },
            from,
          )
      by_check obj held false passed h' = absurd (none_left h')
      by_check _ held true passed h' = cc

      by_lookup :
          (l : Lookup)
          → services_store.get_by_key key ≡ l
          → (elim l as (λ x. Outcome (List Service)) [
            | failed err ↦ done []
            | absent ↦ done []
            | found obj ↦
                if not (base_check cfg obj)
                then done []
                else object_topo rt c cfg endpoint_store obj
          ])
            ≡ done topo
          → (s : V1Service) × IsManaged cfg services_store key s
            × FromPort c endpoint_store s (host_of s) s.ports t
      by_lookup (failed err) e h' = absurd (none_left h')
      by_lookup absent e h' = absurd (none_left h')
      by_lookup (found obj) e h' = by_check obj e (base_check cfg obj) refl h'

  IsManaged-passes :
      (services_store : Store) (key : String) (s : V1Service)
      → IsManaged cfg services_store key s
      → passes s ≡ true
  IsManaged-passes services_store key s m =
      let in_pool = m.in_pool in
      let named = m.named in
      ground (arith, eq_iff cfg.service_name "", eq_iff cfg.service_name s.name)

  managed_topo :
      (services_store : Store) (key : String) (s : V1Service)
      → IsManaged cfg services_store key s
      → get_service_network_topo rt c cfg services_store endpoint_store key ≡ (
          service_targets c endpoint_store s (host_of s) s.ports [] >>= λ targets.
          done (rt.sort Service service_by_name targets))
  unfolding get_service_network_topo
  managed_topo services_store key s m =
      rw (m.held, (base_check-service cfg s).1 m.selected, get_service_network_topo)
        (service_topo_lem s ∙ if_true _ _ (IsManaged-passes services_store key s m))

  -- If getServiceNetworkTopo returns a result for the key of a managed service, each port of the
  -- service that has endpoints has an entry in the result, with these endpoints.
  pub topo_complete :
      (services_store : Store) (key : String) (s : V1Service) (topo : List Service)
      (p : V1ServicePort) (e : Endpoint) (es : List Endpoint)
      → IsManaged cfg services_store key s
      → get_service_network_topo rt c cfg services_store endpoint_store key ≡ done topo
      → Elem p s.ports
      → get_endpoints c endpoint_store s p ≡ done (e ∷ es)
      → (t : Service) × Elem t topo × IsTarget c endpoint_store s (host_of s) p t
  topo_complete services_store key s topo p e es m h k g =
      in_order (service_targets c endpoint_store s (host_of s) s.ports []) refl
        (sym (managed_topo services_store key s m) ∙ h)
    where
      in_order :
          (o : Outcome (List Service))
          → service_targets c endpoint_store s (host_of s) s.ports [] ≡ o
          → (o >>= λ targets. done (rt.sort Service service_by_name targets)) ≡ done topo
          → (t : Service) × Elem t topo × IsTarget c endpoint_store s (host_of s) p t
      in_order (done ts) f h' =
          let (t, there, target) =
            service_targets_complete c endpoint_store s (host_of s) s.ports [] ts p e es f k g in
          (
            t,
            subst (Elem t) (done-injective h')
                (Elem-perm t (Permᴰ.symm (rt.sort-perm Service service_by_name ts)) there),
            target,
          )
      in_order (halt stop) f h' = cc

  -- With --require-port=false no service is managed: the result is empty for every key.
  pub topo_require_port_off :
      (services_store : Store) (key : String)
      → cfg.require_port ≡ false
      → get_service_network_topo rt c cfg services_store endpoint_store key ≡ done []
  unfolding get_service_network_topo
  topo_require_port_off services_store key off =
      elim (services_store.get_by_key key)
        as (λ l.
          (elim l as (λ x. Outcome (List Service)) [
            | failed err ↦ done []
            | absent ↦ done []
            | found obj ↦
                if not (base_check cfg obj)
                then done []
                else object_topo rt c cfg endpoint_store obj
          ])
          ≡ done []) [
            | failed err ↦ refl
            | absent ↦ refl
            | found obj ↦ rw (base_check_off cfg obj off)
          ]

  -- A service of the store that is not managed has no entry.
  pub topo_unmanaged :
      (services_store : Store) (key : String) (s : V1Service)
      → services_store.get_by_key key ≡ found (v1_service s)
      → ¬ (IsManaged cfg services_store key s)
      → get_service_network_topo rt c cfg services_store endpoint_store key ≡ done []
  unfolding get_service_network_topo
  topo_unmanaged services_store key s held unmanaged =
      rw (get_service_network_topo, held) (by_check (base_check cfg (v1_service s)) refl)
    where
      by_passes :
          base_check cfg (v1_service s) ≡ true
          → (b : Bool) → passes s ≡ b
          → (if b
              then (service_targets c endpoint_store s (host_of s) s.ports [] >>= λ targets.
                  done (rt.sort Service service_by_name targets))
              else done [])
            ≡ done []
      by_passes checked false e = refl
      by_passes checked true e = absurd (
          unmanaged (record {
            held = held;
            selected = (base_check-service cfg s).0 checked;
            named = ground (arith, eq_iff cfg.service_name "", eq_iff cfg.service_name s.name);
            in_pool = ground arith;
          }))

      by_check :
          (b : Bool)
          → base_check cfg (v1_service s) ≡ b
          → (if not b then done [] else object_topo rt c cfg endpoint_store (v1_service s))
            ≡ done []
      by_check false e = refl
      by_check true e = service_topo_lem s ∙ by_passes e (passes s) refl
