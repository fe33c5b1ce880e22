-- ===== src/Controller/Keeps.antt =====
-- The sync functions of controller.go keep what the operations of the Configurator keep.
use lbex.Prelude.{
  String, ◌≡◌, refl, sym, subst, ◌∙◌, Bool, true, false, Option, none, some, List, [], ◌∷◌,
  if◌then◌else◌,
}
use lbex.Runtime.{Runtime}
use lbex.Outcome.{Outcome, done, halt}
use lbex.Client.{Client, Lookup, found, absent, failed}
use lbex.Config.{Config}
use lbex.K8s.{Object, v1_service, v1_node, V1Service}
use lbex.Service.{Service, validate_service_object_type}
use lbex.NodeInfo.{validate_node_object_type, get_node_address}
use lbex.Topology.{get_service_network_topo}
use lbex.Nginx.{Node, ServiceSpec}
use lbex.Nginx.Control.{Os, stream_cfg}
use lbex.Configurator.{State, add_or_update_node, delete_node}
use lbex.Publish.{add_or_update_service, delete_configuration}
use lbex.Queue.{WorkQueue}
use lbex.Controller.{
  LbExController, Stores, string_of, conf_name, service_spec, node_of, enqueu_found,
  enqueu_service_objects, enqueu_affected, sync_node, sync_node_key, sync_nodes, drop_error,
  sync_topo, sync_service, sync_service_key, sync_services, sync_managed, sync_endpoint_key,
  sync_endpoints,
}

-- A property of the Configurator's state that each operation on nodes and services keeps, whether it
-- ends or stops the process.
pub record IsKept (os : Os) (P : State → Type 0) : Type 1 where
  pub node : (rt : Runtime) (st : State) (node : Node) → P st → P (add_or_update_node rt st node).1
  pub gone : (rt : Runtime) (st : State) (key : String) → P st → P (delete_node rt st key).1
  pub service :
      (rt : Runtime) (svc : ServiceSpec) (st : State)
      → P st
      → P (add_or_update_service os rt svc st).1
  pub configuration :
      (name : String) (st : State) → P st → P (delete_configuration os name stream_cfg st)

module _ {Q : Type 0} (wq : WorkQueue Q) (rt : Runtime) (os : Os) (c : Client) (cfg : Config)
    (stores : Stores) (P : State → Type 0) (kept : IsKept os P) where
  abbrev Kept : LbExController Q → Type 0
  Kept ctl = P ctl.cfgtor

  -- Queueing services leaves the Configurator alone.
  cfgtor-enqueu :
      (keys : List String) (ctl : LbExController Q)
      → (enqueu_service_objects wq rt os c cfg stores keys ctl).cfgtor ≡ ctl.cfgtor
  unfolding enqueu_service_objects enqueu_found
  cfgtor-enqueu [] ctl = refl
  cfgtor-enqueu (key ∷ keys) ctl =
      cfgtor-enqueu keys _ ∙ by_lookup (stores.services_store.get_by_key key)
    where
      by_lookup :
          (l : Lookup)
          → (elim l as (λ x. LbExController Q) [
            | failed err ↦ ctl
            | absent ↦ ctl
            | found obj ↦ enqueu_found wq rt os c cfg stores obj ctl
          ]).cfgtor
            ≡ ctl.cfgtor
      by_lookup (failed err) = refl
      by_lookup absent = refl
      by_lookup (found obj) = refl

  enqueu_affected-Kept :
      (r : List String × State) (ctl : LbExController Q)
      → P r.1
      → Kept (enqueu_affected wq rt os c cfg stores r ctl)
  unfolding enqueu_affected
  enqueu_affected-Kept (keys, st) ctl h = subst P (sym (cfgtor-enqueu keys _)) h

  sync_node-Kept :
      (key : String) (obj : Object) (ctl : LbExController Q)
      → Kept ctl
      → Kept (sync_node wq rt os c cfg stores key obj ctl).1
  unfolding sync_node validate_node_object_type get_node_address
  sync_node-Kept key (v1_node n) ctl h =
      enqueu_affected-Kept (add_or_update_node rt ctl.cfgtor synced) ctl
        (kept.node rt ctl.cfgtor synced h)
    where
      synced : Node
      synced = node_of key (v1_node n) (get_node_address (v1_node n)).0
  sync_node-Kept key _ ctl h = h

  sync_node_key-Kept :
      (key : String) (ctl : LbExController Q)
      → Kept ctl
      → Kept (sync_node_key wq rt os c cfg stores key ctl).1
  unfolding sync_node_key
  sync_node_key-Kept key ctl h =
      elim (stores.nodes_store.get_by_key key)
        as (λ l.
          Kept
            (elim l as (λ x. Option String × LbExController Q) [
              | failed err ↦ (some err, ctl)
              | absent ↦
                  (none, enqueu_affected wq rt os c cfg stores (delete_node rt ctl.cfgtor key) ctl)
              | found obj ↦ sync_node wq rt os c cfg stores key obj ctl
            ]).1) [
              | failed err ↦ h
              | absent ↦
                  enqueu_affected-Kept (delete_node rt ctl.cfgtor key) ctl
                    (kept.gone rt ctl.cfgtor key h)
              | found obj ↦ sync_node-Kept key obj ctl h
            ]

  -- syncNodes keeps the property,
  pub sync_nodes-Kept :
      (obj : Object) (ctl : LbExController Q)
      → P ctl.cfgtor
      → P (sync_nodes wq rt os c cfg stores obj ctl).1.cfgtor
  unfolding sync_nodes
  sync_nodes-Kept obj ctl h = by_guard (wq.shutting_down ctl.nodes_queue) (string_of obj)
    where
      by_guard :
          (b : Bool) (o : Option String)
          → Kept
              (if b then (none, ctl) else (elim o as (λ x. Option String × LbExController Q) [
                | none ↦ (some "type assertion faild for key string", ctl)
                | some key ↦ sync_node_key wq rt os c cfg stores key ctl
              ])).1
      by_guard true o = h
      by_guard false none = h
      by_guard false (some key) = sync_node_key-Kept key ctl h

  drop_error-Kept :
      (ctl : LbExController Q) (r : Outcome (Option String) × State)
      → P r.1
      → Kept (drop_error wq rt os c cfg stores ctl r).1
  unfolding drop_error
  drop_error-Kept ctl (done e, st) h = h
  drop_error-Kept ctl (halt stop, st) h = h

  sync_topo-Kept :
      (key : String) (s : V1Service) (o : Outcome (List Service)) (ctl : LbExController Q)
      → Kept ctl
      → Kept (sync_topo wq rt os c cfg stores key s o ctl).1
  unfolding sync_topo
  sync_topo-Kept key s (halt stop) ctl h = h
  sync_topo-Kept key s (done []) ctl h = h
  sync_topo-Kept key s (done (t ∷ topo)) ctl h =
      drop_error-Kept ctl (add_or_update_service os rt (service_spec key s (t ∷ topo)) ctl.cfgtor)
        (kept.service rt (service_spec key s (t ∷ topo)) ctl.cfgtor h)

  sync_service-Kept :
      (key : String) (obj : Object) (ctl : LbExController Q)
      → Kept ctl
      → Kept
          (elim (validate_service_object_type obj)
            as (λ x. Outcome (Option String) × LbExController Q) [
              | some err ↦ (done none, ctl)
              | none ↦ sync_service wq rt os c cfg stores key obj ctl
            ]).1
  unfolding sync_service validate_service_object_type
  sync_service-Kept key (v1_service s) ctl h =
      sync_topo-Kept key s
        (get_service_network_topo rt c cfg stores.services_store stores.endpoint_store key) ctl h
  sync_service-Kept key _ ctl h = h

  sync_service_key-Kept :
      (key : String) (ctl : LbExController Q)
      → Kept ctl
      → Kept (sync_service_key wq rt os c cfg stores key ctl).1
  unfolding sync_service_key
  sync_service_key-Kept key ctl h =
      elim (stores.services_store.get_by_key key)
        as (λ l.
          Kept
            (elim l as (λ x. Outcome (Option String) × LbExController Q) [
              | failed err ↦ (done (some err), ctl)
              | absent ↦ (
                done none,
                record ctl {
                  cfgtor = delete_configuration os (conf_name key) stream_cfg ctl.cfgtor;
                },
              )
              | found obj ↦
                  elim (validate_service_object_type obj)
                    as (λ x. Outcome (Option String) × LbExController Q) [
                      | some err ↦ (done none, ctl)
                      | none ↦ sync_service wq rt os c cfg stores key obj ctl
                    ]
            ]).1) [
              | failed err ↦ h
              | absent ↦ kept.configuration (conf_name key) ctl.cfgtor h
              | found obj ↦ sync_service-Kept key obj ctl h
            ]

  -- syncServices does,
  pub sync_services-Kept :
      (obj : Object) (ctl : LbExController Q)
      → P ctl.cfgtor
      → P (sync_services wq rt os c cfg stores obj ctl).1.cfgtor
  unfolding sync_services
  sync_services-Kept obj ctl h = by_guard (wq.shutting_down ctl.services_queue) (string_of obj)
    where
      by_guard :
          (b : Bool) (o : Option String)
          → Kept
              (if b
                then (done none, ctl)
                else (elim o as (λ x. Outcome (Option String) × LbExController Q) [
                  | none ↦ (done (some "syncServices: type assertion failed for key string"), ctl)
                  | some key ↦ sync_service_key wq rt os c cfg stores key ctl
                ])).1
      by_guard true o = h
      by_guard false none = h
      by_guard false (some key) = sync_service_key-Kept key ctl h

  sync_managed-Kept :
      (key : String) (o : Outcome (List Service)) (ctl : LbExController Q)
      → Kept ctl
      → Kept (sync_managed wq rt os c cfg stores key o ctl).1
  unfolding sync_managed
  sync_managed-Kept key (halt stop) ctl h = h
  sync_managed-Kept key (done []) ctl h = h
  sync_managed-Kept key (done (t ∷ topo)) ctl h = subst P (sym (cfgtor-enqueu (key ∷ []) ctl)) h

  sync_endpoint_key-Kept :
      (key : String) (ctl : LbExController Q)
      → Kept ctl
      → Kept (sync_endpoint_key wq rt os c cfg stores key ctl).1
  unfolding sync_endpoint_key
  sync_endpoint_key-Kept key ctl h =
      elim (stores.endpoint_store.get_by_key key)
        as (λ l.
          Kept
            (elim l as (λ x. Outcome (Option String) × LbExController Q) [
              | failed err ↦ (done (some err), ctl)
              | absent ↦ (done none, enqueu_service_objects wq rt os c cfg stores (key ∷ []) ctl)
              | found obj ↦
                  sync_managed wq rt os c cfg stores key
                    (get_service_network_topo rt c cfg stores.services_store stores.endpoint_store
                      key)
                    ctl
            ]).1) [
              | failed err ↦ h
              | absent ↦ subst P (sym (cfgtor-enqueu (key ∷ []) ctl)) h
              | found obj ↦
                  sync_managed-Kept key
                    (get_service_network_topo rt c cfg stores.services_store stores.endpoint_store
                      key)
                    ctl h
            ]

  -- and so does syncEndpoints.
  pub sync_endpoints-Kept :
      (obj : Object) (ctl : LbExController Q)
      → P ctl.cfgtor
      → P (sync_endpoints wq rt os c cfg stores obj ctl).1.cfgtor
  unfolding sync_endpoints
  sync_endpoints-Kept obj ctl h = by_guard (wq.shutting_down ctl.endpoints_queue) (string_of obj)
    where
      by_guard :
          (b : Bool) (o : Option String)
          → Kept
              (if b
                then (done none, ctl)
                else (elim o as (λ x. Outcome (Option String) × LbExController Q) [
                  | none ↦ (done (some "syncEndpoints: key string type assertion failed"), ctl)
                  | some key ↦ sync_endpoint_key wq rt os c cfg stores key ctl
                ])).1
      by_guard true o = h
      by_guard false none = h
      by_guard false (some key) = sync_endpoint_key-Kept key ctl h
