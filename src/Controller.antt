-- ===== src/Controller.antt =====
-- controller.go: the three sync functions, which the workers of the queues call with a key. The
-- stores stand as they are while a call runs.
pub mod Names
pub mod Served
pub mod Services
pub mod Nodes
pub mod Keeps
pub mod Reach
use lbex.Prelude.{
  String, Bool, true, false, Option, none, some, List, [], ◌∷◌, ◌++◌, map, if◌then◌else◌,
}
use Prim.Native.String.{◌++◌ as ◌⧺◌}
use lbex.Prelude.Text.{replace_all}
use lbex.Runtime.{Runtime}
use lbex.Outcome.{Outcome, done, halt, nil_dereference}
use lbex.Client.{Client, Store, found, absent, failed}
use lbex.Config.{Config}
use lbex.K8s.{Object, v1_service, text, V1Service}
use lbex.Annotations.{lbex_algorithm_key, lbex_upstream_type, get_optional_string_annotation}
use lbex.Service.{Endpoint, Service, validate_service_object_type}
use lbex.NodeInfo.{NodeAddress, validate_node_object_type, get_node_address, is_node_scheduleable}
use lbex.Topology.{get_service_network_topo}
use lbex.Nginx.{Node, Target, ServiceSpec}
use lbex.Nginx.Options.{validate_algorithm, validate_upstream_type}
use lbex.Nginx.Control.{Os, stream_cfg}
use lbex.Configurator.{State, add_or_update_node, delete_node}
use lbex.Publish.{add_or_update_service, delete_configuration}
use lbex.Queue.{WorkQueue, enqueue}

pub record LbExController (Q : Type 0) : Type 0 where
  pub cfgtor : State
  pub endpoints_queue : Q
  pub services_queue : Q
  pub nodes_queue : Q

pub record Stores : Type 0 where
  pub endpoint_store : Store
  pub services_store : Store
  pub nodes_store : Store

-- strings.Replace(key, "/", "-", -1)
unfoldable pub conf_name : String → String
unfolding replace_all
conf_name key = replace_all "/" "-" key

-- `key, ok := obj.(string)`
abbrev pub string_of : Object → Option String
string_of (text key) = some key
string_of _ = none

abbrev pub target_of : Endpoint → Target
target_of ep = record {
  service_port = ep.service_port;
  node_ip = ep.node_ip;
  node_name = ep.node_name;
  node_port = ep.node_port;
  port_name = ep.port_name;
  pod_ip = ep.pod_ip;
  pod_port = ep.pod_port;
  protocol = ep.protocol;
}

-- the two loops that append to svcSpec.Topology
unfoldable pub targets_of : List Service → List Target
targets_of [] = []
targets_of (elem' ∷ topo) = map target_of elem'.endpoints ++ targets_of topo

-- the svcSpec of syncServices
unfoldable pub service_spec : String → V1Service → List Service → ServiceSpec
unfolding conf_name targets_of
service_spec key s topo = record {
  service = s;
  key = key;
  algorithm =
      validate_algorithm (get_optional_string_annotation lbex_algorithm_key (v1_service s)).0;
  cluster_ip = s.cluster_ip;
  config_name = conf_name key;
  upstream_type =
      validate_upstream_type (get_optional_string_annotation lbex_upstream_type (v1_service s)).0;
  topology = targets_of topo;
}

-- the node that syncNodes passes to the Configurator
unfoldable pub node_of : String → Object → NodeAddress → Node
node_of key obj addrs = record {
  name = key;
  hostname = addrs.hostname;
  external_ip = addrs.external_ip;
  internal_ip = addrs.internal_ip;
  active = is_node_scheduleable obj;
}

module _ {Q : Type 0} (wq : WorkQueue Q) (rt : Runtime) (os : Os) (c : Client) (cfg : Config)
    (stores : Stores) where
  -- the object of a key, if the store has it
  enqueu_found : Object → LbExController Q → LbExController Q
  unfolding enqueue
  enqueu_found obj ctl = record ctl { services_queue = enqueue wq c obj ctl.services_queue }

  -- enqueuServiceObjects
  unfoldable pub enqueu_service_objects : List String → LbExController Q → LbExController Q
  unfolding enqueu_found
  enqueu_service_objects [] ctl = ctl
  enqueu_service_objects (key ∷ keys) ctl =
      enqueu_service_objects keys (elim (stores.services_store.get_by_key key) [
        | failed err ↦ ctl
        | absent ↦ ctl
        | found obj ↦ enqueu_found obj ctl
      ])

  -- the end of syncNodes, with the services that the Configurator reports
  unfoldable pub enqueu_affected : List String × State → LbExController Q → LbExController Q
  unfolding enqueu_service_objects
  enqueu_affected (affected_services, cfgtor) ctl =
      enqueu_service_objects affected_services (record ctl { cfgtor = cfgtor })

  -- syncNodes for a node that the store has
  sync_node : String → Object → LbExController Q → Option String × LbExController Q
  unfolding enqueu_affected get_node_address node_of add_or_update_node
  sync_node key obj ctl = elim (validate_node_object_type obj) [
    | some err ↦ (none, ctl)
    | none ↦
        let (addrs, err) = get_node_address obj in
        elim err [
          | some e ↦ (none, ctl)
          | none ↦
              (none, enqueu_affected (add_or_update_node rt ctl.cfgtor (node_of key obj addrs)) ctl)
        ]
  ]

  sync_node_key : String → LbExController Q → Option String × LbExController Q
  unfolding sync_node delete_node
  sync_node_key key ctl = elim (stores.nodes_store.get_by_key key) [
    | failed err ↦ (some err, ctl)
    | absent ↦ (none, enqueu_affected (delete_node rt ctl.cfgtor key) ctl)
    | found obj ↦ sync_node key obj ctl
  ]

  -- syncNodes
  unfoldable pub sync_nodes : Object → LbExController Q → Option String × LbExController Q
  unfolding sync_node_key
  sync_nodes obj ctl =
      if wq.shutting_down ctl.nodes_queue then (none, ctl) else (elim (string_of obj) [
        | none ↦ (some "type assertion faild for key string", ctl)
        | some key ↦ sync_node_key key ctl
      ])

  -- The result of AddOrUpdateService, whose error syncServices drops.
  drop_error :
      LbExController Q
      → Outcome (Option String) × State
      → Outcome (Option String) × LbExController Q
  drop_error ctl (done dropped, cfgtor) = (done none, record ctl { cfgtor = cfgtor })
  drop_error ctl (halt stop, cfgtor) = (halt stop, record ctl { cfgtor = cfgtor })

  -- syncServices from the topology on: without one the service is not managed
  sync_topo :
      String
      → V1Service
      → Outcome (List Service)
      → LbExController Q
      → Outcome (Option String) × LbExController Q
  unfolding service_spec add_or_update_service drop_error
  sync_topo key s (halt stop) ctl = (halt stop, ctl)
  sync_topo key s (done []) ctl = (done none, ctl)
  sync_topo key s (done (t ∷ topo)) ctl =
      drop_error ctl (add_or_update_service os rt (service_spec key s (t ∷ topo)) ctl.cfgtor)

  -- `service, _ := storeObj.(*v1.Service)`, after ValidateServiceObjectType
  sync_service : String → Object → LbExController Q → Outcome (Option String) × LbExController Q
  unfolding sync_topo
  sync_service key (v1_service s) ctl =
      sync_topo key s
        (get_service_network_topo rt c cfg stores.services_store stores.endpoint_store key) ctl
  sync_service key _ ctl = (halt nil_dereference, ctl)

  sync_service_key : String → LbExController Q → Outcome (Option String) × LbExController Q
  unfolding sync_service delete_configuration
  sync_service_key key ctl = elim (stores.services_store.get_by_key key) [
    | failed err ↦ (done (some err), ctl)
    | absent ↦ (
      done none,
      record ctl { cfgtor = delete_configuration os (conf_name key) stream_cfg ctl.cfgtor },
    )
    | found obj ↦ elim (validate_service_object_type obj) [
      | some err ↦ (done none, ctl)
      | none ↦ sync_service key obj ctl
    ]
  ]

  -- syncServices
  unfoldable pub sync_services :
      Object → LbExController Q → Outcome (Option String) × LbExController Q
  unfolding sync_service_key
  sync_services obj ctl =
      if wq.shutting_down ctl.services_queue then (done none, ctl) else (elim (string_of obj) [
        | none ↦ (done (some "syncServices: type assertion failed for key string"), ctl)
        | some key ↦ sync_service_key key ctl
      ])

  -- syncEndpoints for a key that the store has: only a managed service is queued
  sync_managed :
      String
      → Outcome (List Service)
      → LbExController Q
      → Outcome (Option String) × LbExController Q
  unfolding enqueu_service_objects
  sync_managed key (halt stop) ctl = (halt stop, ctl)
  sync_managed key (done []) ctl = (done none, ctl)
  sync_managed key (done (t ∷ topo)) ctl = (done none, enqueu_service_objects (key ∷ []) ctl)

  sync_endpoint_key : String → LbExController Q → Outcome (Option String) × LbExController Q
  unfolding sync_managed
  sync_endpoint_key key ctl = elim (stores.endpoint_store.get_by_key key) [
    | failed err ↦ (done (some err), ctl)
    | absent ↦ (done none, enqueu_service_objects (key ∷ []) ctl)
    | found obj ↦
        sync_managed key
          (get_service_network_topo rt c cfg stores.services_store stores.endpoint_store key) ctl
  ]

  -- syncEndpoints
  unfoldable pub sync_endpoints :
      Object → LbExController Q → Outcome (Option String) × LbExController Q
  unfolding sync_endpoint_key
  sync_endpoints obj ctl =
      if wq.shutting_down ctl.endpoints_queue then (done none, ctl) else (elim (string_of obj) [
        | none ↦ (done (some "syncEndpoints: key string type assertion failed"), ctl)
        | some key ↦ sync_endpoint_key key ctl
      ])
