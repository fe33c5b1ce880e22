-- ===== src/Handlers/Laws.antt =====
-- Which events the handlers of services.go, endpoints.go and nodes.go let through to the queues.
use lbex.Prelude.{◌∙◌, String, ◌≡◌, refl, ap, Bool, true, false, Option, none, some, Elem}
use lbex.Prelude.Text.{has_prefix}
use lbex.K8s.{Object}
use lbex.Client.{Client}
use lbex.Queue.{WorkQueue}
use lbex.Queue.Laws.{enqueue-pending}
use lbex.Handlers.{
  DeepEqual, filter_object, service_created_func, service_deleted_func, service_updated_func,
  endpoint_created_func, endpoint_deleted_func, endpoint_updated_func,
}

module _ {Q : Type 0} (wq : WorkQueue Q) (c : Client) (eq : DeepEqual) where
  filter_object_lem :
      (obj : Object) (key : String)
      → c.key_func obj ≡ (key, none)
      → filter_object c obj ≡ has_prefix key "kube-system/"
  unfolding filter_object
  filter_object_lem obj key named =
      ap
        (λ (r : String × Option String). elim r.1 as (λ x. Bool) [
          | some e ↦ true
          | none ↦ has_prefix r.0 "kube-system/"
        ])
        named

  -- While its queue runs, an event of a service or of endpoints outside of kube-system is marked
  -- in it under the key of the object: when the object is new, when it is deleted, and when it is
  -- updated to one that differs.
  pub handlers-notice :
      (obj new_obj : Object) (key : String) (q : Q)
      → wq.shutting_down q ≡ false
      → c.key_func obj ≡ (key, none)
      → c.key_func new_obj ≡ (key, none)
      → has_prefix key "kube-system/" ≡ false
      → eq.objects obj new_obj ≡ false
      → Elem key (wq.pending (service_created_func wq c eq obj q))
        × Elem key (wq.pending (service_deleted_func wq c eq obj q))
        × Elem key (wq.pending (service_updated_func wq c eq obj new_obj q))
        × Elem key (wq.pending (endpoint_created_func wq c eq obj q))
        × Elem key (wq.pending (endpoint_deleted_func wq c eq obj q))
        × Elem key (wq.pending (endpoint_updated_func wq c eq obj new_obj q))
  unfolding service_created_func service_deleted_func service_updated_func endpoint_created_func
      endpoint_deleted_func endpoint_updated_func
  handlers-notice obj new_obj key q running named named' outside differs =
      let passes : filter_object c obj ≡ false = filter_object_lem obj key named ∙ outside in
      let marked = enqueue-pending wq c obj q key running named in
      let marked' = enqueue-pending wq c new_obj q key running named' in
      rw (passes, differs) (marked, marked, marked', marked, marked, marked')

  -- Events of services and of endpoints in kube-system never reach a queue.
  pub handlers-ignore :
      (obj new_obj : Object) (key : String) (q : Q)
      → c.key_func obj ≡ (key, none)
      → has_prefix key "kube-system/" ≡ true
      → (service_created_func wq c eq obj q ≡ q)
        × (service_deleted_func wq c eq obj q ≡ q)
        × (service_updated_func wq c eq obj new_obj q ≡ q)
        × (endpoint_created_func wq c eq obj q ≡ q)
        × (endpoint_deleted_func wq c eq obj q ≡ q)
        × (endpoint_updated_func wq c eq obj new_obj q ≡ q)
  unfolding service_created_func service_deleted_func service_updated_func endpoint_created_func
      endpoint_deleted_func endpoint_updated_func
  handlers-ignore obj new_obj key q named inside =
      let stops : filter_object c obj ≡ true = filter_object_lem obj key named ∙ inside in
      rw stops (refl, refl, refl, refl, refl, refl)
