-- ===== src/Controller/Nodes.antt =====
-- What syncNodes of controller.go does to the queue of services.
use lbex.Prelude.{
  String, ◌≡◌, refl, sym, subst, ◌∙◌, ap, ◌≢◌, inl, inr, false, not, none, some, List, [], ◌∷◌,
  ◌==◌, Elem,
}
use lbex.Prelude.Dict.{get}
use lbex.Runtime.{Runtime}
use lbex.Client.{Client, Lookup, found, absent, failed}
use lbex.Config.{Config}
use lbex.K8s.{Object, text, v1_node, V1Node, hostname, external_ip, internal_ip}
use lbex.Nginx.{Node}
use lbex.Nginx.Control.{Os}
use lbex.Configurator.{add_or_update_node, delete_node}
use lbex.Configurator.Nodes.{Uses, Affected, add_or_update_node-Affected}
use lbex.Configurator.Invariant.{IsWellFormed, delete_node_lem}
use lbex.NodeInfo.{
  NodeAddress, no_address, validate_node_object_type, get_node_address, is_node_scheduleable,
}
use lbex.NodeInfo.Laws.{last_of, set_addresses_lem}
use lbex.Queue.{WorkQueue}
use lbex.Queue.Laws.{enqueue-pending, enqueue-keeps, enqueue-shutting_down}
use lbex.Controller.{
  LbExController, Stores, node_of, enqueu_found, enqueu_service_objects, enqueu_affected,
  sync_node_key, sync_node, sync_nodes,
}

-- The node of the store, as it is cached.
abbrev pub cached_node : String → V1Node → Node
cached_node key n = record {
  name = key;
  hostname = last_of hostname "" n.addresses;
  external_ip = last_of external_ip "" n.addresses;
  internal_ip = last_of internal_ip "" n.addresses;
  active = not n.unschedulable;
}

node_of-node :
    (key : String) (n : V1Node)
    → node_of key (v1_node n) (get_node_address (v1_node n)).0 ≡ cached_node key n
unfolding node_of get_node_address is_node_scheduleable
node_of-node key n =
    ap
      (λ (a : NodeAddress). record {
        name = key;
        hostname = a.hostname;
        external_ip = a.external_ip;
        internal_ip = a.internal_ip;
        active = not n.unschedulable;
      })
      (set_addresses_lem n.addresses no_address)

module _ {Q : Type 0} (wq : WorkQueue Q) (rt : Runtime) (os : Os) (c : Client) (cfg : Config)
    (stores : Stores) where
  abbrev enqueue_all : List String → LbExController Q → LbExController Q
  enqueue_all = enqueu_service_objects wq rt os c cfg stores

  abbrev by_found : Lookup → LbExController Q → LbExController Q
  by_found (failed err) ctl = ctl
  by_found absent ctl = ctl
  by_found (found obj) ctl = enqueu_found wq rt os c cfg stores obj ctl

  -- one key leaves what is marked as it is and the queue running
  by_found-keeps :
      (l : Lookup) (ctl : LbExController Q) (j : String)
      → Elem j (wq.pending ctl.services_queue)
      → Elem j (wq.pending (by_found l ctl).services_queue)
  unfolding enqueu_found
  by_found-keeps (failed err) ctl j h = h
  by_found-keeps absent ctl j h = h
  by_found-keeps (found obj) ctl j h = enqueue-keeps wq c obj ctl.services_queue j h

  by_found-running :
      (l : Lookup) (ctl : LbExController Q)
      → wq.shutting_down (by_found l ctl).services_queue ≡ wq.shutting_down ctl.services_queue
  unfolding enqueu_found
  by_found-running (failed err) ctl = refl
  by_found-running absent ctl = refl
  by_found-running (found obj) ctl = enqueue-shutting_down wq c obj ctl.services_queue

  enqueu-step :
      (key : String) (keys : List String) (ctl : LbExController Q)
      → enqueue_all (key ∷ keys) ctl
        ≡ enqueue_all keys (by_found (stores.services_store.get_by_key key) ctl)
  unfolding enqueu_service_objects
  enqueu-step key keys ctl = by_lookup (stores.services_store.get_by_key key)
    where
      by_lookup :
          (l : Lookup)
          → enqueue_all keys (elim l as (λ x. LbExController Q) [
            | failed err ↦ ctl
            | absent ↦ ctl
            | found obj ↦ enqueu_found wq rt os c cfg stores obj ctl
          ])
            ≡ enqueue_all keys (by_found l ctl)
      by_lookup (failed err) = refl
      by_lookup absent = refl
      by_lookup (found obj) = refl

  enqueu-keeps :
      (keys : List String) (ctl : LbExController Q) (j : String)
      → Elem j (wq.pending ctl.services_queue)
      → Elem j (wq.pending (enqueue_all keys ctl).services_queue)
  unfolding enqueu_service_objects
  enqueu-keeps [] ctl j h = h
  enqueu-keeps (key ∷ keys) ctl j h =
      subst (λ (k : LbExController Q). Elem j (wq.pending k.services_queue))
        (sym (enqueu-step key keys ctl))
        (enqueu-keeps keys _ j (by_found-keeps (stores.services_store.get_by_key key) ctl j h))

  -- Every service of the list that the store has under its own key is marked for the worker of the
  -- services, while its queue runs.
  pub enqueu_service_objects-pending :
      (keys : List String) (ctl : LbExController Q) (key : String) (obj : Object)
      → wq.shutting_down ctl.services_queue ≡ false
      → Elem key keys
      → stores.services_store.get_by_key key ≡ found obj
      → c.key_func obj ≡ (key, none)
      → Elem key (wq.pending (enqueu_service_objects wq rt os c cfg stores keys ctl).services_queue)
  unfolding enqueu_service_objects enqueu_found
  enqueu_service_objects-pending [] ctl key obj running h held named = absurd h
  enqueu_service_objects-pending (k ∷ keys) ctl key obj running (inl same) held named =
      subst (λ (r : LbExController Q). Elem key (wq.pending r.services_queue))
        (sym (enqueu-step k keys ctl))
        (enqueu-keeps keys _ key (
          subst (λ l. Elem key (wq.pending (by_found l ctl).services_queue))
            (sym held ∙ ap stores.services_store.get_by_key same)
            (enqueue-pending wq c obj ctl.services_queue key running named)))
  enqueu_service_objects-pending (k ∷ keys) ctl key obj running (inr there) held named =
      subst (λ (r : LbExController Q). Elem key (wq.pending r.services_queue))
        (sym (enqueu-step k keys ctl))
        (enqueu_service_objects-pending keys (by_found (stores.services_store.get_by_key k) ctl) key
          obj (by_found-running (stores.services_store.get_by_key k) ctl ∙ running) there held
          named)

  -- When a node that the cache has is gone from the store, then, in a well-formed state and while
  -- the queues run, syncNodes marks each service that is recorded with a node of that name, if the
  -- store has the service under its own key.
  pub sync_nodes-gone :
      (key svc : String) (obj : Object) (ctl : LbExController Q)
      → IsWellFormed ctl.cfgtor
      → wq.shutting_down ctl.nodes_queue ≡ false
      → wq.shutting_down ctl.services_queue ≡ false
      → stores.nodes_store.get_by_key key ≡ absent
      → get key ctl.cfgtor.nodes ≢ none
      → Uses ctl.cfgtor (λ n. n.name == key) svc
      → stores.services_store.get_by_key svc ≡ found obj
      → c.key_func obj ≡ (svc, none)
      → Elem svc (wq.pending (sync_nodes wq rt os c cfg stores (text key) ctl).1.services_queue)
  unfolding sync_nodes sync_node_key enqueu_affected
  sync_nodes-gone key svc obj ctl w running services_running gone cached used held named =
      rw (running, gone, sync_node_key)
        (enqueu_service_objects-pending (delete_node rt ctl.cfgtor key).0
          (record ctl { cfgtor = (delete_node rt ctl.cfgtor key).1 }) svc obj services_running
          (((delete_node_lem rt ctl.cfgtor key w).1 svc).1 (cached, used)) held named)

  -- When a node of the store that the cache has is synced, then, in a well-formed state and while
  -- the queues run, a service is marked, if the store has it under its own key, and if: the node can
  -- be scheduled, and the service is recorded with an internal or external address of the cached node
  -- which the node (the last of that type in its list) no longer has; or the node cannot be
  -- scheduled, and the service is recorded with a node of its name.
  pub sync_nodes-updated :
      (key svc : String) (node : V1Node) (old : Node) (obj : Object) (ctl : LbExController Q)
      → IsWellFormed ctl.cfgtor
      → wq.shutting_down ctl.nodes_queue ≡ false
      → wq.shutting_down ctl.services_queue ≡ false
      → stores.nodes_store.get_by_key key ≡ found (v1_node node)
      → get key ctl.cfgtor.nodes ≡ some old
      → Affected (some old) ctl.cfgtor (cached_node key node) svc
      → stores.services_store.get_by_key svc ≡ found obj
      → c.key_func obj ≡ (svc, none)
      → Elem svc (wq.pending (sync_nodes wq rt os c cfg stores (text key) ctl).1.services_queue)
  unfolding sync_nodes sync_node_key sync_node enqueu_affected validate_node_object_type
      get_node_address node_of
  sync_nodes-updated key svc node old obj ctl w running services_running held_node cached affected
        held named =
      rw (running, held_node, sync_node_key)
        (enqueu_service_objects-pending (add_or_update_node rt ctl.cfgtor synced).0
          (record ctl { cfgtor = (add_or_update_node rt ctl.cfgtor synced).1 }) svc obj
          services_running
          ((add_or_update_node-Affected rt ctl.cfgtor w.upstream_nodes_map synced svc).1 (
            subst (λ o. Affected o ctl.cfgtor synced svc) (sym cached)
              (subst (λ n. Affected (some old) ctl.cfgtor n svc) (sym (node_of-node key node))
                affected)))
          held named)
    where
      synced : Node
      synced = node_of key (v1_node node) (get_node_address (v1_node node)).0
