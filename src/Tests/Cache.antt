-- ===== src/Tests/Cache.antt =====
-- The theorems on the cache of nodes and on the work queue, applied to the cluster of lbex.Tests.
use lbex.Prelude.{
  String, ◌≡◌, refl, ◌≢◌, ◌↔◌, inl, true, false, Option, none, some, [], ◌∷◌, arith, ◌==◌, eq_iff,
  Elem, if◌then◌else◌,
}
use lbex.Prelude.Text.{has_prefix}
use lbex.Prelude.Dict.{get}
use lbex.Nginx.{Node}
use lbex.K8s.{Object, v1_service, text}
use lbex.Configurator.{add_or_update_node, delete_node}
use lbex.Configurator.Nodes.{
  node_after, Uses, Affected, get-add_or_update_node, add_or_update_node-Affected,
}
use lbex.Configurator.Invariant.{
  IsWellFormed, add_or_update_node-IsWellFormed, delete_node_lem, delete_node-IsWellFormed,
}
use lbex.Queue.{worker_round}
use lbex.Queue.Laws.{worker_round-retries}
use lbex.Handlers.{
  DeepEqual, service_created_func, service_deleted_func, service_updated_func,
  endpoint_created_func, endpoint_deleted_func, endpoint_updated_func,
}
use lbex.Handlers.Laws.{handlers-notice, handlers-ignore}
use lbex.Controller.{Stores, sync_nodes}
use lbex.Controller.Nodes.{cached_node, sync_nodes-gone, sync_nodes-updated}
use lbex.Tests.{
  rt, client, os, cfg, web, api_node_n1, n1, no_items, stores, state, marks, Marks, ctl,
}

keyed_state : (key : String) (node : Node) → get key state.nodes ≡ some node → node.name ≡ key
unfolding get
keyed_state key node h = ground (arith, eq_iff "n1" key, eq_iff "n2" key)

abbrev state-IsWellFormed : IsWellFormed state
unfolding get
state-IsWellFormed = record {
  nodes_map = (refl, (refl, tt));
  upstream_nodes_map = (refl, tt);
  upstream_target_map = tt;
  keyed = keyed_state;
}

abbrev moved_n1 : Node
moved_n1 = record n1 { internal_ip = "192.168.0.9" }

get-add_or_update_node_example :
    ((j : String)
      → get j (add_or_update_node rt state moved_n1).1.nodes ≡ (
          if moved_n1.name == j
          then node_after (get moved_n1.name state.nodes) moved_n1
          else get j state.nodes))
    × ((add_or_update_node rt state moved_n1).1.service_upstream_nodes
        ≡ state.service_upstream_nodes)
    × ((add_or_update_node rt state moved_n1).1.service_upstream_target
        ≡ state.service_upstream_target)
    × ((add_or_update_node rt state moved_n1).1.ngxc ≡ state.ngxc)
    × ((add_or_update_node rt state moved_n1).1.world ≡ state.world)
get-add_or_update_node_example = get-add_or_update_node rt state moved_n1

add_or_update_node-Affected_example :
    Elem "shop/web" (add_or_update_node rt state moved_n1).0
    ↔ Affected (get "n1" state.nodes) state moved_n1 "shop/web"
add_or_update_node-Affected_example =
    add_or_update_node-Affected rt state state-IsWellFormed.upstream_nodes_map moved_n1 "shop/web"

add_or_update_node-IsWellFormed_example : IsWellFormed (add_or_update_node rt state moved_n1).1
add_or_update_node-IsWellFormed_example =
    add_or_update_node-IsWellFormed rt state moved_n1 state-IsWellFormed

delete_node_lem_example :
    ((j : String)
      → get j (delete_node rt state "n1").1.nodes ≡ (if "n1" == j then none else get j state.nodes))
    × ((svc : String)
        → Elem svc (delete_node rt state "n1").0
          ↔ ((get "n1" state.nodes ≢ none) × Uses state (λ n. n.name == "n1") svc))
delete_node_lem_example = delete_node_lem rt state "n1" state-IsWellFormed

delete_node-IsWellFormed_example : IsWellFormed (delete_node rt state "n1").1
delete_node-IsWellFormed_example = delete_node-IsWellFormed rt state "n1" state-IsWellFormed

-- a sync function that always fails, on a queue that is the whole state
abbrev failing : String → Marks → Option String × Marks
failing key q = (some "no such host", q)

worker_round-retries_example :
    Elem "shop/web"
      (worker_round marks (λ (q : Marks). q) (λ (q q' : Marks). q) failing "shop/web" (false, [])).1
worker_round-retries_example =
    worker_round-retries marks (λ (q : Marks). q) (λ (q q' : Marks). q) failing "shop/web"
      (false, []) (false, []) "no such host" (λ q t. refl) refl refl

abbrev without_n1 : Stores
without_n1 = record stores { nodes_store = no_items }

n1_cached : get "n1" state.nodes ≢ none
unfolding get
n1_cached e = cc

web-Uses_n1 : Uses state (λ n. n.name == "n1") "shop/web"
unfolding get
web-Uses_n1 = (n1 ∷ [], refl, refl)

sync_nodes-gone_example :
    Elem "shop/web"
      (sync_nodes marks rt os client cfg without_n1 (text "n1") ctl).1.services_queue.1
sync_nodes-gone_example =
    sync_nodes-gone marks rt os client cfg without_n1 "n1" "shop/web" (v1_service web) ctl
      state-IsWellFormed refl refl refl n1_cached web-Uses_n1 refl refl

n1_found : get "n1" state.nodes ≡ some n1
unfolding get
n1_found = refl

n1-Affected : Affected (some n1) state (cached_node "n1" api_node_n1) "shop/web"
unfolding get
n1-Affected = inl (ground (arith, eq_iff "192.168.0.1" "192.168.0.9"), (n1 ∷ [], refl, refl))

sync_nodes-updated_example :
    Elem "shop/web" (sync_nodes marks rt os client cfg stores (text "n1") ctl).1.services_queue.1
sync_nodes-updated_example =
    sync_nodes-updated marks rt os client cfg stores "n1" "shop/web" api_node_n1 n1 (v1_service web)
      ctl state-IsWellFormed refl refl refl n1_found n1-Affected refl refl

abbrev deep_equal : DeepEqual
deep_equal = record {
  objects = λ a b. false;
  annotations = λ a b. true;
  labels = λ a b. true;
  spec = λ a b. true;
  addresses = λ a b. true;
  daemon_endpoints = λ a b. true;
}

abbrev resized : Object
resized = v1_service (record web { cluster_ip = "10.0.0.2" })

shop_outside : has_prefix "shop/web" "kube-system/" ≡ false
unfolding has_prefix
shop_outside = refl

handlers-notice_example :
    Elem "shop/web" (service_created_func marks client deep_equal (v1_service web) (false, [])).1
    × Elem "shop/web" (service_deleted_func marks client deep_equal (v1_service web) (false, [])).1
    × Elem "shop/web"
        (service_updated_func marks client deep_equal (v1_service web) resized (false, [])).1
    × Elem "shop/web" (endpoint_created_func marks client deep_equal (v1_service web) (false, [])).1
    × Elem "shop/web" (endpoint_deleted_func marks client deep_equal (v1_service web) (false, [])).1
    × Elem "shop/web"
        (endpoint_updated_func marks client deep_equal (v1_service web) resized (false, [])).1
handlers-notice_example =
    handlers-notice marks client deep_equal (v1_service web) resized "shop/web" (false, []) refl
      refl refl shop_outside refl

abbrev dns : Object
dns = v1_service (record web { namespace = "kube-system"; name = "dns" })

dns_inside : has_prefix "kube-system/dns" "kube-system/" ≡ true
unfolding has_prefix
dns_inside = refl

abbrev idle : Marks
idle = (false, [])

handlers-ignore_example :
    (service_created_func marks client deep_equal dns idle ≡ idle)
    × (service_deleted_func marks client deep_equal dns idle ≡ idle)
    × (service_updated_func marks client deep_equal dns resized idle ≡ idle)
    × (endpoint_created_func marks client deep_equal dns idle ≡ idle)
    × (endpoint_deleted_func marks client deep_equal dns idle ≡ idle)
    × (endpoint_updated_func marks client deep_equal dns resized idle ≡ idle)
handlers-ignore_example =
    handlers-ignore marks client deep_equal dns resized "kube-system/dns" idle refl dns_inside
