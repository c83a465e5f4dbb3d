-- ===== src/Taskqueue/Broker/Holding.antt =====
-- broker/server.py: where the broker holds a task, and which moves may end it.
use container_platform.Prelude.Dict
use container_platform.Prelude.Dict.{Dict, lookup-insert, lookup-remove}
use container_platform.Prelude.{
  ℕ, ◌+◌, String, ◌≡◌, refl, ap, ◌∙◌, inl, inr, Bool, true, false, not, ◌&&◌, ◌||◌, Option, none,
  some, List, [], ◌∷◌, ltb, str_eq, Bool-cases, if-branches, arith, eq_iff,
}
use container_platform.Taskqueue.Queue.{Task, TaskState, TaskQueue, enqueue, requeue, entry_of}
use container_platform.Taskqueue.Queue.Heaps.{
  heap_of, has_task, has_task-heap_push, heap_of-enqueue,
}
use container_platform.Taskqueue.Broker.{PendingDelivery, Message, get_or, find_pending, retry_task}
use container_platform.Taskqueue.Broker.Connection.{Event}
use container_platform.Taskqueue.Broker.Steps.{Offer, System, Move}

abbrev pub names : Option String → String → Bool
names none id = false
names (some j) id = str_eq j id

pub or_right : (a : Bool) {b : Bool} → b ≡ true → (a || b) ≡ true
or_right true e = refl
or_right false e = e

module _ {V : Type 0} where
  abbrev pub IsQueuedTask : String → TaskQueue V → Type 0
  IsQueuedTask id q = (name : String) × (has_task id (heap_of name q) ≡ true)

  abbrev pub IsPendingTask : String → Dict (PendingDelivery V) → Type 0
  IsPendingTask id d = (p : PendingDelivery V) × (Dict.lookup id d ≡ some p) × (p.task.task_id ≡ id)

  abbrev pub IsOfferedTask : String → Option (Offer V) → Type 0
  IsOfferedTask id o = (x : Offer V) × (o ≡ some x) × (x.task.task_id ≡ id)

  abbrev pub has_delivery : String → List (PendingDelivery V) → Bool
  has_delivery id [] = false
  has_delivery id (p ∷ ps) = str_eq p.task.task_id id || has_delivery id ps

  -- The task is in a heap, delivered, in the hands of the dispatcher, or in those of the reaper.
  pub data IsHeld (id : String) (s : System V) : Type 0 where
    in_queue : IsQueuedTask id s.broker.queue → IsHeld id s
    in_pending : IsPendingTask id s.broker.pending → IsHeld id s
    in_offer : IsOfferedTask id s.offer → IsHeld id s
    in_return : has_delivery id s.to_requeue ≡ true → IsHeld id s

  abbrev pub has_retry : Task V → Bool
  has_retry t = not (ltb t.max_retries (t.retries + 1))

  abbrev pub found_has_retry : Option (PendingDelivery V) → Bool
  found_has_retry none = true
  found_has_retry (some p) = has_retry p.task

  abbrev pub first_ends : String → List (PendingDelivery V) → Bool
  first_ends id [] = false
  first_ends id (p ∷ ps) = str_eq p.task.task_id id && not (has_retry p.task)

  -- The moves that end the task `id`: it is acknowledged, its result arrives, it is refused without
  -- a way back, or the reaper finds that it has no retry left.
  abbrev pub ends_task : String → Move V → System V → Bool
  ends_task id (Move.handles reachable now peer (Event.received (Message.ack j))) s = names j id
  ends_task id (Move.handles reachable now peer (Event.received (Message.result j x))) s =
      names j id
  ends_task id (Move.handles reachable now peer (Event.received (Message.nack j again))) s =
      names j id && not (get_or true again && found_has_retry (find_pending j s.broker))
  ends_task id (Move.requeues now) s = first_ends id s.to_requeue
  ends_task id m s = false

  pub enqueue-IsQueuedTask :
      (id : String) (t : Task V) (q : TaskQueue V)
      → IsQueuedTask id q
      → IsQueuedTask id (enqueue t q)
  unfolding entry_of
  enqueue-IsQueuedTask id t q (name, held) =
      let e = heap_of-enqueue name t q in
      elim (Bool-cases (str_eq t.queue name)) [
        | inl same ↦
            let n : t.queue ≡ name = (eq_iff t.queue name).0 same in
            let there : has_task id (heap_of t.queue q) ≡ true =
              ap (λ k. has_task id (heap_of k q)) n ∙ held in
            (
              name,
              ap (has_task id) (e ∙ rw same refl)
                  ∙ has_task-heap_push id (entry_of t) (heap_of t.queue q)
                  ∙ or_right (str_eq t.task_id id) there,
            )
        | inr other ↦ (name, ap (has_task id) (e ∙ rw other refl) ∙ held)
      ]

  pub enqueue_queued : (t : Task V) (q : TaskQueue V) → IsQueuedTask t.task_id (enqueue t q)
  unfolding entry_of
  enqueue_queued t q =
      let same = (eq_iff t.queue t.queue).1 refl in
      let here = (eq_iff t.task_id t.task_id).1 refl in
      (
        t.queue,
        ap (has_task t.task_id) (heap_of-enqueue t.queue t q ∙ rw same refl)
            ∙ has_task-heap_push t.task_id (entry_of t) (heap_of t.queue q)
            ∙ rw here refl,
      )

  pub retry_task-IsQueuedTask :
      (id : String) (now delay : ℕ) (t : Task V) (q : TaskQueue V)
      → IsQueuedTask id q
      → IsQueuedTask id (retry_task now delay t q)
  unfolding retry_task requeue
  retry_task-IsQueuedTask id now delay t q held =
      let back : Task V = record t {
        retries = t.retries + 1;
        eta = some (now + delay);
        state = TaskState.retry;
      } in
      if-branches (IsQueuedTask id) (ltb t.max_retries (t.retries + 1)) q (enqueue back q) held
        (enqueue-IsQueuedTask id back q held)

  -- A task that has a retry left is in its queue again.
  pub retry_task_lem :
      (now delay : ℕ) (t : Task V) (q : TaskQueue V)
      → has_retry t ≡ true
      → IsQueuedTask t.task_id (retry_task now delay t q)
  unfolding retry_task requeue
  retry_task_lem now delay t q left =
      let within : ltb t.max_retries (t.retries + 1) ≡ false = ground (arith, left) in
      rw within (
        enqueue_queued
          (record t { retries = t.retries + 1; eta = some (now + delay); state = TaskState.retry })
          q)
