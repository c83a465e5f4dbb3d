-- ===== src/Taskqueue/Broker/Conserving.antt =====
-- broker/server.py: no task is lost, whatever the threads do.
use container_platform.Prelude.Dict
use container_platform.Prelude.Dict.{Dict, lookup-insert, lookup-remove}
use container_platform.Prelude.{
  ℕ, ◌+◌, String, ◌≡◌, refl, sym, ap, ◌∙◌, subst, ◌⊎◌, inl, inr, Bool, true, false, ◌||◌, Option,
  none, some, List, [], ◌∷◌, str_eq, if-branches, Bool-cases, arith, eq_iff, get_elem?,
}
use container_platform.Taskqueue.Queue.{Task, TaskState, TaskQueue, enqueue, requeue, dequeue}
use container_platform.Taskqueue.Queue.Heaps.{heap_of, has_task, dequeue-cases, IsPopped}
use container_platform.Taskqueue.Broker.{WorkerConnection, PendingDelivery, BrokerServer}
use container_platform.Taskqueue.Broker.Connection.{close_connection, forget_worker, conn_of}
use container_platform.Taskqueue.Broker.Loops.{record_delivery, take_back, running}
use container_platform.Taskqueue.Broker.Steps.{
  Offer, System, Move, offer_of, taken, take_from, finish_offer, move, run,
}
use container_platform.Taskqueue.Broker.Holding.{
  IsQueuedTask, IsPendingTask, IsHeld, ends_task, enqueue-IsQueuedTask, enqueue_queued,
}
use container_platform.Taskqueue.Broker.Keeping.{
  IsKept, insert-IsPendingTask, insert_pending, handle_event-IsKept,
}
use container_platform.Taskqueue.Broker.Returning.{collect-IsHeld, requeue_next-IsHeld}

module _ {V : Type 0} where
  -- A change of the broker alone.
  of_kept : (id : String) (s : System V) → IsKept id s.broker → IsHeld id s
  of_kept id s (inl q) = IsHeld.in_queue q
  of_kept id s (inr p) = IsHeld.in_pending p

  with_broker-IsHeld :
      (id : String) (b : BrokerServer V) (s : System V)
      → (IsKept id s.broker → IsKept id b)
      → IsHeld id s
      → IsHeld id (record s { broker = b })
  with_broker-IsHeld id b s keeps (IsHeld.in_queue h) =
      of_kept id (record s { broker = b }) (keeps (inl h))
  with_broker-IsHeld id b s keeps (IsHeld.in_pending h) =
      of_kept id (record s { broker = b }) (keeps (inr h))
  with_broker-IsHeld id b s keeps (IsHeld.in_offer h) = IsHeld.in_offer h
  with_broker-IsHeld id b s keeps (IsHeld.in_return h) = IsHeld.in_return h

  -- Taking the first entry of a heap: the task is in the heaps still, or it is the one that left.
  popped-cases :
      (id name : String) (q r : TaskQueue V) (t : Task V)
      → IsPopped name q r t
      → IsQueuedTask id q
      → IsQueuedTask id r ⊎ (t.task_id ≡ id)
  popped-cases id name q r t p (k, held) = elim (Bool-cases (str_eq name k)) [
    | inr other ↦ inl (k, ap (has_task id) (p.after k ∙ rw other refl) ∙ held)
    | inl same ↦
        let n : name ≡ k = (eq_iff name k).0 same in
        let there : (str_eq p.top.task.task_id id || has_task id p.rest) ≡ true =
          sym (ap (has_task id) (ap (λ i. heap_of i q) (sym n) ∙ p.before)) ∙ held in
        elim (Bool-cases (str_eq p.top.task.task_id id)) [
          | inl it ↦ inr (ap (λ u. u.task_id) p.is_top ∙ (eq_iff p.top.task.task_id id).0 it)
          | inr not_it ↦ inl (k, ap (has_task id) (p.after k ∙ rw same refl) ∙ (rw not_it at there))
        ]
  ]

  taken-IsHeld :
      (id : String) (now i : ℕ) (name : String) (w : WorkerConnection) (s : System V)
      → s.offer ≡ none
      → IsHeld id s
      → IsHeld id (taken i w (dequeue name now s.broker.queue) s)
  unfolding taken offer_of running
  taken-IsHeld id now i name w s free held = elim (dequeue-cases name now s.broker.queue) [
    | inl e ↦ rw e (with_none held)
    | inr (r, t, e, p) ↦ rw e (with_task r t p held)
  ]
    where
      with_none : IsHeld id s → IsHeld id (record s { broker = s.broker; offer = none })
      with_none (IsHeld.in_queue h) = IsHeld.in_queue h
      with_none (IsHeld.in_pending h) = IsHeld.in_pending h
      with_none (IsHeld.in_offer (o, e, own)) = cc
      with_none (IsHeld.in_return h) = IsHeld.in_return h

      with_task :
          (r : TaskQueue V) (t : Task V)
          → IsPopped name s.broker.queue r t
          → IsHeld id s
          → IsHeld id (record s {
            broker = record s.broker { queue = r };
            offer = some (record { conn = i; worker = w; task = running t });
          })
      with_task r t p (IsHeld.in_queue h) = elim (popped-cases id name s.broker.queue r t p h) [
        | inl q ↦ IsHeld.in_queue q
        | inr own ↦ IsHeld.in_offer (record { conn = i; worker = w; task = running t }, refl, own)
      ]
      with_task r t p (IsHeld.in_pending h) = IsHeld.in_pending h
      with_task r t p (IsHeld.in_offer (o, e, own)) = cc
      with_task r t p (IsHeld.in_return h) = IsHeld.in_return h

  take_from-IsHeld :
      (id : String) (now i : ℕ) (name : String) (w : Option WorkerConnection) (o : Option (Offer V))
      (s : System V)
      → s.offer ≡ o
      → IsHeld id s
      → IsHeld id (take_from now i name w o s)
  unfolding take_from
  take_from-IsHeld id now i name none o s e held = held
  take_from-IsHeld id now i name (some w) (some o) s e held = held
  take_from-IsHeld id now i name (some w) none s e held =
      if-branches (IsHeld id) w.busy s (taken i w (dequeue name now s.broker.queue) s) held
        (taken-IsHeld id now i name w s e held)

  finish_offer-IsHeld :
      (id : String) (written : Bool) (now : ℕ) (o : Option (Offer V)) (s : System V)
      → s.offer ≡ o
      → IsHeld id s
      → IsHeld id (finish_offer written now o s)
  unfolding finish_offer record_delivery take_back requeue
  finish_offer-IsHeld id written now none s e held = held
  finish_offer-IsHeld id true now (some o) s e (IsHeld.in_queue h) = IsHeld.in_queue h
  finish_offer-IsHeld id true now (some o) s e (IsHeld.in_pending h) =
      IsHeld.in_pending (insert-IsPendingTask id o.task.task_id _ s.broker.pending refl h)
  finish_offer-IsHeld id true now (some o) s e (IsHeld.in_offer (x, f, own)) =
      let q : x ≡ o = ground (arith, e, f) in
      let p : PendingDelivery V = record {
        task = o.task;
        worker_id = o.worker.worker_id;
        delivered_at = now;
      } in
      IsHeld.in_pending (
        subst (λ k. IsPendingTask k (Dict.insert o.task.task_id p s.broker.pending))
          (ap (λ y. y.task.task_id) (sym q) ∙ own) (insert_pending p s.broker.pending))
  finish_offer-IsHeld id true now (some o) s e (IsHeld.in_return h) = IsHeld.in_return h
  finish_offer-IsHeld id false now (some o) s e (IsHeld.in_queue h) = IsHeld.in_queue (
      enqueue-IsQueuedTask id (record o.task { eta = some (now + 0); state = TaskState.retry })
        s.broker.queue h)
  finish_offer-IsHeld id false now (some o) s e (IsHeld.in_pending h) = IsHeld.in_pending h
  finish_offer-IsHeld id false now (some o) s e (IsHeld.in_offer (x, f, own)) =
      let q : x ≡ o = ground (arith, e, f) in
      let back : Task V = record o.task { eta = some (now + 0); state = TaskState.retry } in
      IsHeld.in_queue (
        subst (λ k. IsQueuedTask k (enqueue back s.broker.queue))
          (ap (λ y. y.task.task_id) (sym q) ∙ own) (enqueue_queued back s.broker.queue))
  finish_offer-IsHeld id false now (some o) s e (IsHeld.in_return h) = IsHeld.in_return h

  forget_worker-IsKept :
      (id : String) (w : Option WorkerConnection) (b : BrokerServer V)
      → IsKept id b
      → IsKept id (forget_worker w b)
  unfolding forget_worker
  forget_worker-IsKept id none b kept = kept
  forget_worker-IsKept id (some w) b kept = kept

  pub move-IsHeld :
      (id : String) (m : Move V) (s : System V)
      → ends_task id m s ≡ false
      → IsHeld id s
      → IsHeld id (move m s)
  unfolding move close_connection
  move-IsHeld id (Move.handles reachable now peer e) s goes_on held =
      with_broker-IsHeld id _ s (handle_event-IsKept id reachable now peer e s goes_on) held
  move-IsHeld id (Move.ends peer) s goes_on held =
      with_broker-IsHeld id _ s
        (forget_worker-IsKept id (conn_of peer.worker_conn s.broker) s.broker) held
  move-IsHeld id (Move.takes now i name) s goes_on held =
      take_from-IsHeld id now i name (get_elem? s.broker.connections i) s.offer s refl held
  move-IsHeld id (Move.delivers written now) s goes_on held =
      finish_offer-IsHeld id written now s.offer s refl held
  move-IsHeld id (Move.reaps now timeout) s goes_on held =
      collect-IsHeld id now timeout s.to_requeue s refl held
  move-IsHeld id (Move.requeues now) s goes_on held =
      requeue_next-IsHeld id now s.to_requeue s refl goes_on held

  -- None of the moves, each at the state where it is made, ends the task.
  abbrev pub GoesOn : String → List (Move V) → System V → Type 0
  GoesOn id [] s = Unit
  GoesOn id (m ∷ ms) s = (ends_task id m s ≡ false) × GoesOn id ms (move m s)

  -- A task that the broker holds, in a heap, delivered, or in the hands of the dispatcher or of the
  -- reaper, is still held after any moves of the threads of which none ends it: no acknowledgement
  -- or result of it, no refusal that forbids a retry or comes when none is left, and no expiry when
  -- none is left.
  pub run-IsHeld :
      (id : String) (ms : List (Move V)) (s : System V)
      → GoesOn id ms s
      → IsHeld id s
      → IsHeld id (run ms s)
  unfolding run
  run-IsHeld id [] s goes_on held = held
  run-IsHeld id (m ∷ ms) s goes_on held =
      run-IsHeld id ms (move m s) goes_on.1 (move-IsHeld id m s goes_on.0 held)
