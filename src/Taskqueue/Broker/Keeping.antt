-- ===== src/Taskqueue/Broker/Keeping.antt =====
-- broker/server.py: no task is lost while the threads move.
use container_platform.Prelude.Dict
use container_platform.Prelude.Dict.{Dict, lookup-insert, lookup-remove}
use container_platform.Prelude.{
  ℕ, String, ◌≡◌, refl, sym, ap, ◌∙◌, subst, ◌⊎◌, inl, inr, Bool, true, false, not, ◌&&◌, Option,
  none, some, str_eq, Bool-cases, arith, eq_iff,
}
use container_platform.Taskqueue.Queue.{Task}
use container_platform.Taskqueue.Broker.{
  WorkerConnection, PendingDelivery, BrokerServer, Peer, Message, get_or, find_pending, pop_pending,
  nack_found, task_of, handle_nack, handle_result, pop_listeners, revoked, revoke_found,
  handle_revoke, handle_subscribe, handle_ack,
}
use container_platform.Taskqueue.Broker.Connection.{
  Event, handle_event, handle_message, handle_publish, update_conn,
}
use container_platform.Taskqueue.Broker.Steps.{System, Move}
use container_platform.Taskqueue.Broker.Holding.{
  names, IsQueuedTask, IsPendingTask, has_retry, ends_task, enqueue-IsQueuedTask,
  retry_task-IsQueuedTask, retry_task_lem, found_has_retry,
}

module _ {V : Type 0} where
  -- The part of `IsHeld` that a connection touches.
  abbrev pub IsKept : String → BrokerServer V → Type 0
  IsKept id b = IsQueuedTask id b.queue ⊎ IsPendingTask id b.pending

  pub insert-IsPendingTask :
      (id k : String) (p : PendingDelivery V) (d : Dict (PendingDelivery V))
      → p.task.task_id ≡ k
      → IsPendingTask id d
      → IsPendingTask id (Dict.insert k p d)
  insert-IsPendingTask id k p d own (x, found, e) = elim (Bool-cases (str_eq k id)) [
    | inl same ↦ (p, lookup-insert k id p d ∙ rw same refl, own ∙ (eq_iff k id).0 same)
    | inr other ↦ (x, lookup-insert k id p d ∙ rw other found, e)
  ]

  pub insert_pending :
      (p : PendingDelivery V) (d : Dict (PendingDelivery V))
      → IsPendingTask p.task.task_id (Dict.insert p.task.task_id p d)
  insert_pending p d =
      let same = (eq_iff p.task.task_id p.task.task_id).1 refl in
      (p, lookup-insert p.task.task_id p.task.task_id p d ∙ rw same refl, refl)

  pop_pending-IsKept :
      (id : String) (j : Option String) (b : BrokerServer V)
      → names j id ≡ false
      → IsKept id b
      → IsKept id (pop_pending j b)
  unfolding pop_pending
  pop_pending-IsKept id none b e kept = kept
  pop_pending-IsKept id (some j) b e (inl queued) = inl queued
  pop_pending-IsKept id (some j) b e (inr (p, found, own)) =
      inr (p, lookup-remove j id b.pending ∙ rw e found, own)

  nack_found-IsKept :
      (id : String) (now : ℕ) (again : Bool) (found : Option (PendingDelivery V))
      (b : BrokerServer V)
      → IsKept id b
      → IsKept id (nack_found now again found b)
  unfolding nack_found
  nack_found-IsKept id now again none b kept = kept
  nack_found-IsKept id now false (some p) b kept = kept
  nack_found-IsKept id now true (some p) b (inl queued) =
      inl (retry_task-IsQueuedTask id now p.task.retry_delay p.task b.queue queued)
  nack_found-IsKept id now true (some p) b (inr pending) = inr pending

  -- The refused task itself goes back to its queue.
  nack_found_lem :
      (now : ℕ) (again : Bool) (p : PendingDelivery V) (b : BrokerServer V)
      → (again && has_retry p.task) ≡ true
      → IsKept p.task.task_id (nack_found now again (some p) b)
  unfolding nack_found
  nack_found_lem now false p b e = cc
  nack_found_lem now true p b e = inl (retry_task_lem now p.task.retry_delay p.task b.queue e)

  queued_pop_pending :
      (id : String) (j : Option String) (b : BrokerServer V)
      → IsQueuedTask id b.queue
      → IsQueuedTask id (pop_pending j b).queue
  unfolding pop_pending
  queued_pop_pending id none b q = q
  queued_pop_pending id (some j) b q = q

  nacked :
      (id : String) (now : ℕ) (j : Option String) (again : Bool) (b : BrokerServer V)
      → names j id ≡ true
      → not (again && found_has_retry (find_pending j b)) ≡ false
      → IsKept id b
      → IsKept id (nack_found now again (find_pending j b) (pop_pending j b))
  unfolding find_pending
  nacked id now j again b same e (inl queued) =
      nack_found-IsKept id now again (find_pending j b) (pop_pending j b)
        (inl (queued_pop_pending id j b queued))
  nacked id now none again b same e (inr pending) = cc
  nacked id now (some j) again b same e (inr (p, found, own)) =
      let f : Dict.lookup j b.pending ≡ some p =
        ap (λ k. Dict.lookup k b.pending) ((eq_iff j id).0 same) ∙ found in
      let left : not (again && has_retry p.task) ≡ false = rw f at e in
      rw f (
        subst (λ k. IsKept k (nack_found now again (some p) (pop_pending (some j) b))) own
          (nack_found_lem now again p (pop_pending (some j) b) (ground (arith, left))))

  handle_nack-IsKept :
      (id : String) (now : ℕ) (j : Option String) (again : Option Bool) (b : BrokerServer V)
      → (names j id && not (get_or true again && found_has_retry (find_pending j b))) ≡ false
      → IsKept id b
      → IsKept id (handle_nack now j again b)
  unfolding handle_nack
  handle_nack-IsKept id now j again b e kept = elim (Bool-cases (names j id)) [
    | inr other ↦
        nack_found-IsKept id now (get_or true again) (find_pending j b) (pop_pending j b)
          (pop_pending-IsKept id j b other kept)
    | inl same ↦ nacked id now j (get_or true again) b same (rw same at e) kept
  ]

  revoke_found-IsKept :
      (id : String) (j : Option String) (found : Option (PendingDelivery V)) (b : BrokerServer V)
      → find_pending j b ≡ found
      → IsKept id b
      → IsKept id (revoke_found j found b)
  unfolding revoke_found revoked find_pending
  revoke_found-IsKept id none found b f kept = kept
  revoke_found-IsKept id (some j) none b f kept = kept
  revoke_found-IsKept id (some j) (some p) b f (inl queued) = inl queued
  revoke_found-IsKept id (some j) (some p) b f (inr (x, found, own)) =
      elim (Bool-cases (str_eq j id)) [
        | inl same ↦
            let n : j ≡ id = (eq_iff j id).0 same in
            let g : Dict.lookup id b.pending ≡ some p =
              ap (λ k. Dict.lookup k b.pending) (sym n) ∙ f in
            let q : x ≡ p = ground (arith, found, g) in
            inr (
              revoked p,
              lookup-insert j id (revoked p) b.pending ∙ rw same refl,
              subst (λ y. y.task.task_id ≡ id) q own,
            )
        | inr other ↦ inr (x, lookup-insert j id (revoked p) b.pending ∙ rw other found, own)
      ]

  update_conn-IsKept :
      (id : String) (c : Option ℕ) (f : WorkerConnection → WorkerConnection) (b : BrokerServer V)
      → IsKept id b
      → IsKept id (update_conn c f b)
  unfolding update_conn
  update_conn-IsKept id none f b kept = kept
  update_conn-IsKept id (some i) f b kept = kept

  pop_listeners-IsKept :
      (id : String) (j : Option String) (b : BrokerServer V)
      → IsKept id b
      → IsKept id (pop_listeners j b)
  unfolding pop_listeners
  pop_listeners-IsKept id none b kept = kept
  pop_listeners-IsKept id (some j) b kept = kept

  handle_publish-IsKept :
      (id : String) (reachable : ℕ → Bool) (peer : Peer) (t : Option (Task V)) (b : BrokerServer V)
      → IsKept id b
      → IsKept id (handle_publish reachable peer t b).broker
  unfolding handle_publish
  handle_publish-IsKept id reachable peer none b kept = kept
  handle_publish-IsKept id reachable peer (some t) b (inl queued) =
      inl (enqueue-IsQueuedTask id t b.queue queued)
  handle_publish-IsKept id reachable peer (some t) b (inr pending) = inr pending

  pub handle_event-IsKept :
      (id : String) (reachable : ℕ → Bool) (now : ℕ) (peer : Peer) (e : Event V) (s : System V)
      → ends_task id (Move.handles reachable now peer e) s ≡ false
      → IsKept id s.broker
      → IsKept id (handle_event reachable now peer e s.broker).broker
  unfolding handle_event handle_message handle_subscribe handle_ack handle_result handle_revoke
  handle_event-IsKept id reachable now peer (Event.received (Message.subscribe j queues)) s e kept =
      kept
  handle_event-IsKept id reachable now peer (Event.received (Message.publish p)) s e kept =
      handle_publish-IsKept id reachable peer (task_of now p) s.broker kept
  handle_event-IsKept id reachable now peer (Event.received (Message.ack j)) s e kept =
      pop_pending-IsKept id j s.broker e kept
  handle_event-IsKept id reachable now peer (Event.received (Message.nack j again)) s e kept =
      handle_nack-IsKept id now j again s.broker e kept
  handle_event-IsKept id reachable now peer (Event.received (Message.result j payload)) s e kept =
      update_conn-IsKept id peer.worker_conn _ _ (
        pop_listeners-IsKept id j (pop_pending j s.broker)
          (pop_pending-IsKept id j s.broker e kept))
  handle_event-IsKept id reachable now peer (Event.received (Message.revoke j)) s e kept =
      revoke_found-IsKept id j (find_pending j s.broker) s.broker refl kept
  handle_event-IsKept id reachable now peer (Event.received Message.stats) s e kept = kept
  handle_event-IsKept id reachable now peer (Event.received Message.ping) s e kept = kept
  handle_event-IsKept id reachable now peer (Event.received Message.pong) s e kept =
      update_conn-IsKept id peer.worker_conn _ s.broker kept
  handle_event-IsKept id reachable now peer (Event.received Message.other) s e kept = kept
  handle_event-IsKept id reachable now peer Event.timed_out s e kept = kept
  handle_event-IsKept id reachable now peer Event.closed s e kept = kept
