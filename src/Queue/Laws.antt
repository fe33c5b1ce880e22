-- ===== src/Queue/Laws.antt =====
-- What Enqueue and a round of the worker of task_queue.go mark as needing processing.
use lbex.Prelude.{
  String, ◌≡◌, refl, sym, subst, inl, inr, Bool, true, false, Option, none, some, Elem,
  if◌then◌else◌,
}
use lbex.K8s.{Object}
use lbex.Client.{Client}
use lbex.Queue.{WorkQueue, enqueue, requeue, worker_round}

module _ {Q : Type 0} (wq : WorkQueue Q) (c : Client) where
  -- Enqueue marks the key of the object, keeps what is marked, and does not shut the queue down.
  pub enqueue-pending :
      (obj : Object) (q : Q) (key : String)
      → wq.shutting_down q ≡ false
      → c.key_func obj ≡ (key, none)
      → Elem key (wq.pending (enqueue wq c obj q))
  unfolding enqueue
  enqueue-pending obj q key running named =
      rw (running, enqueue)
        (subst
          (λ (r : String × Option String).
            Elem key (wq.pending (elim r.1 as (λ x. Q) [ some e ↦ q | none ↦ wq.add r.0 q ])))
          (sym named) ((wq.add-pending key q running key).1 (inl refl)))

  pub enqueue-keeps :
      (obj : Object) (q : Q) (j : String)
      → Elem j (wq.pending q)
      → Elem j (wq.pending (enqueue wq c obj q))
  unfolding enqueue
  enqueue-keeps obj q j h = by_open (wq.shutting_down q) refl (c.key_func obj)
    where
      by_open :
          (b : Bool)
          → wq.shutting_down q ≡ b
          → (r : String × Option String)
          → Elem j (
              wq.pending
                (if b then q else (elim r.1 as (λ x. Q) [ some e ↦ q | none ↦ wq.add r.0 q ])))
      by_open true e r = h
      by_open false e (key, some err) = h
      by_open false e (key, none) = (wq.add-pending key q e j).1 (inr h)

  pub enqueue-shutting_down :
      (obj : Object) (q : Q) → wq.shutting_down (enqueue wq c obj q) ≡ wq.shutting_down q
  unfolding enqueue
  enqueue-shutting_down obj q = by_open (wq.shutting_down q) (c.key_func obj)
    where
      by_open :
          (b : Bool) (r : String × Option String)
          → wq.shutting_down
              (if b then q else (elim r.1 as (λ x. Q) [ some e ↦ q | none ↦ wq.add r.0 q ]))
            ≡ wq.shutting_down q
      by_open true r = refl
      by_open false (key, some err) = refl
      by_open false (key, none) = wq.add-shutting_down key q

-- A key whose `sync` fails is marked again after the round of the worker, while the queue runs: no
-- failed key is lost.
pub worker_round-retries :
    {Q S : Type 0} (wq : WorkQueue Q) (queue_of : S → Q) (with_queue : Q → S → S)
    (sync : String → S → Option String × S) (key : String) (s s' : S) (err : String)
    → ((q : Q) (t : S) → queue_of (with_queue q t) ≡ q)
    → sync key s ≡ (some err, s')
    → wq.shutting_down (queue_of s') ≡ false
    → Elem key (wq.pending (queue_of (worker_round wq queue_of with_queue sync key s)))
unfolding worker_round requeue
worker_round-retries {Q = Q} {S = S} wq queue_of with_queue sync key s s' err set failed running =
    subst
      (λ (r : Option String × S). Elem key (
        wq.pending (
          queue_of (elim r.0 as (λ x. S) [
            | some e ↦ with_queue (wq.finish key (requeue wq key (queue_of r.1))) r.1
            | none ↦ with_queue (wq.finish key (queue_of r.1)) r.1
          ]))))
      (sym failed)
      (rw set
        (wq.finish-pending key _ key ((wq.add-pending key (queue_of s') running key).1 (inl refl))))
