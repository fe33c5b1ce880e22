-- ===== src/Queue.antt =====
-- task_queue.go: TaskQueue over the work queue of client-go, which is a parameter.
pub mod Laws
use lbex.Prelude.{
  String, ◌≡◌, ◌↔◌, ◌⊎◌, Bool, true, false, Option, none, some, List, Elem, if◌then◌else◌,
}
use lbex.K8s.{Object}
use lbex.Client.{Client}

-- The operations of workqueue.Type. `pending` is what the queue has marked as needing processing:
-- Add marks an item and ignores it once the queue is shut down, and Done marks nothing.
pub record WorkQueue (Q : Type 0) : Type 0 where
  pub add : String → Q → Q
  pub finish : String → Q → Q
  pub shutting_down : Q → Bool
  pub pending : Q → List String
  pub add-pending :
      (key : String) (q : Q)
      → shutting_down q ≡ false
      → (j : String) → Elem j (pending (add key q)) ↔ ((j ≡ key) ⊎ Elem j (pending q))
  pub add-ignored : (key : String) (q : Q) → shutting_down q ≡ true → add key q ≡ q
  pub add-shutting_down : (key : String) (q : Q) → shutting_down (add key q) ≡ shutting_down q
  pub finish-pending :
      (key : String) (q : Q) (j : String) → Elem j (pending q) → Elem j (pending (finish key q))

module _ {Q : Type 0} (wq : WorkQueue Q) where
  -- Enqueue
  unfoldable pub enqueue : Client → Object → Q → Q
  enqueue c obj q =
      if wq.shutting_down q
      then q
      else let (key, err) = c.key_func obj in elim err [ some e ↦ q | none ↦ wq.add key q ]

  -- Requeue
  unfoldable pub requeue : String → Q → Q
  requeue key q = wq.add key q

  -- One round of worker, for an item that Get has returned, with the state that `sync` works on and
  -- the queue in it.
  unfoldable pub worker_round :
      {S : Type 0} → (S → Q) → (Q → S → S) → (String → S → Option String × S) → String → S → S
  unfolding requeue
  worker_round queue_of with_queue sync key_value s =
      let (err, s') = sync key_value s in
      elim err [
        | some e ↦ with_queue (wq.finish key_value (requeue key_value (queue_of s'))) s'
        | none ↦ with_queue (wq.finish key_value (queue_of s')) s'
      ]
