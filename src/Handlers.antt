-- ===== src/Handlers.antt =====
-- services.go, endpoints.go and nodes.go: the functions that the informers call when an object is
-- added, deleted or updated. reflect.DeepEqual is an argument. The handlers of services and of
-- endpoints differ only in their queue.
pub mod Laws
use lbex.Prelude.{String, Bool, true, false, not, ◌&&◌, ◌||◌, Option, none, some, if◌then◌else◌}
use lbex.Prelude.Text.{has_prefix}
use lbex.K8s.{Object, v1_node, V1Node}
use lbex.Client.{Client}
use lbex.Queue.{WorkQueue, enqueue}

-- filterObject
unfoldable pub filter_object : Client → Object → Bool
unfolding has_prefix
filter_object c obj =
    let (key, err) = c.key_func obj in
    elim err [ some e ↦ true | none ↦ has_prefix key "kube-system/" ]

-- filterNode
unfoldable pub filter_node : Object → Bool
filter_node (v1_node n) = false
filter_node _ = true

-- reflect.DeepEqual on objects and on the parts of a node that nodeUpdateEqual compares
pub record DeepEqual : Type 0 where
  pub objects : Object → Object → Bool
  pub annotations : V1Node → V1Node → Bool
  pub labels : V1Node → V1Node → Bool
  pub spec : V1Node → V1Node → Bool
  pub addresses : V1Node → V1Node → Bool
  pub daemon_endpoints : V1Node → V1Node → Bool

-- nodeUpdateEqual
unfoldable pub node_update_equal : DeepEqual → V1Node → V1Node → Bool
node_update_equal eq old new =
    eq.annotations old new
    && (eq.labels old new
        && (eq.spec old new && (eq.addresses old new && eq.daemon_endpoints old new)))

module _ {Q : Type 0} (wq : WorkQueue Q) (c : Client) (eq : DeepEqual) where
  unfoldable pub service_created_func : Object → Q → Q
  unfolding filter_object enqueue
  service_created_func obj q = if filter_object c obj then q else enqueue wq c obj q

  unfoldable pub service_deleted_func : Object → Q → Q
  unfolding filter_object enqueue
  service_deleted_func obj q = if filter_object c obj then q else enqueue wq c obj q

  unfoldable pub service_updated_func : Object → Object → Q → Q
  unfolding filter_object enqueue
  service_updated_func obj new_obj q =
      if filter_object c obj
      then q
      else if not (eq.objects obj new_obj)
      then enqueue wq c new_obj q
      else q

  unfoldable pub endpoint_created_func : Object → Q → Q
  unfolding filter_object enqueue
  endpoint_created_func obj q = if filter_object c obj then q else enqueue wq c obj q

  unfoldable pub endpoint_deleted_func : Object → Q → Q
  unfolding filter_object enqueue
  endpoint_deleted_func obj q = if filter_object c obj then q else enqueue wq c obj q

  unfoldable pub endpoint_updated_func : Object → Object → Q → Q
  unfolding filter_object enqueue
  endpoint_updated_func obj new_obj q =
      if filter_object c obj
      then q
      else if not (eq.objects obj new_obj)
      then enqueue wq c new_obj q
      else q

  unfoldable pub node_created_func : Object → Q → Q
  unfolding filter_node enqueue
  node_created_func obj q = if filter_node obj then q else enqueue wq c obj q

  unfoldable pub node_deleted_func : Object → Q → Q
  unfolding filter_node enqueue
  node_deleted_func obj q = if filter_node obj then q else enqueue wq c obj q

  -- `obj.(*v1.Node)` and `newObj.(*v1.Node)`, which the filter lets through only as nodes
  unfoldable pub node_updated_func : Object → Object → Q → Q
  unfolding node_update_equal enqueue
  node_updated_func (v1_node old) (v1_node new) q =
      if not (node_update_equal eq old new) then enqueue wq c (v1_node new) q else q
  node_updated_func _ _ q = q
