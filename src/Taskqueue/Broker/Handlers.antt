-- ===== src/Taskqueue/Broker/Handlers.antt =====
-- broker/server.py: the retries of the tasks that the handlers of a connection leave.
use container_platform.Prelude.Dict.{AllEntries-insert, AllEntries-remove, lookup-AllEntries}
use container_platform.Prelude.{ℕ, String, ◌≡◌, refl, Bool, true, false, Option, none, some}
use container_platform.Taskqueue.Queue.{Task}
use container_platform.Taskqueue.Broker.{
  WorkerConnection, PendingDelivery, BrokerServer, Peer, Message, task_of, pop_pending,
  find_pending, nack_found, handle_nack, handle_result, pop_listeners, revoked, revoke_found,
  handle_revoke, handle_subscribe, handle_ack,
}
use container_platform.Taskqueue.Broker.Connection.{
  Event, handle_event, handle_message, handle_publish, update_conn,
}
use container_platform.Taskqueue.Broker.Steps.{Move}
use container_platform.Taskqueue.Broker.Bounds.{
  HasRetries, IsQueued, IsPending, IsSound, enqueue-IsQueued, retry_task-IsQueued,
}

module _ {V : Type 0} where
  -- What a handler of a connection must keep.
  abbrev pub IsSafe : BrokerServer V → Type 0
  IsSafe b = IsQueued b.queue × IsPending b.pending

  pop_pending-IsSafe :
      (id : Option String) (b : BrokerServer V) → IsSafe b → IsSafe (pop_pending id b)
  unfolding pop_pending
  pop_pending-IsSafe none b h = h
  pop_pending-IsSafe (some id) b h =
      (h.0, AllEntries-remove (λ i (p : PendingDelivery V). HasRetries p.task) id b.pending h.1)

  nack_found-IsSafe :
      (now : ℕ) (again : Bool) (found : Option (PendingDelivery V)) (b : BrokerServer V)
      → IsSafe b
      → IsSafe (nack_found now again found b)
  unfolding nack_found
  nack_found-IsSafe now again none b h = h
  nack_found-IsSafe now false (some p) b h = h
  nack_found-IsSafe now true (some p) b h =
      (retry_task-IsQueued now p.task.retry_delay p.task b.queue h.0, h.1)

  revoke_found-IsSafe :
      (id : Option String) (found : Option (PendingDelivery V)) (b : BrokerServer V)
      → ((p : PendingDelivery V) → found ≡ some p → HasRetries p.task)
      → IsSafe b
      → IsSafe (revoke_found id found b)
  unfolding revoke_found revoked
  revoke_found-IsSafe none found b sound h = h
  revoke_found-IsSafe (some id) none b sound h = h
  revoke_found-IsSafe (some id) (some p) b sound h = (
    h.0,
    AllEntries-insert (λ i (p : PendingDelivery V). HasRetries p.task) id _ b.pending (sound p refl)
        h.1,
  )

  find_pending-HasRetries :
      (id : Option String) (b : BrokerServer V)
      → IsPending b.pending
      → (p : PendingDelivery V) → find_pending id b ≡ some p
      → HasRetries p.task
  unfolding find_pending
  find_pending-HasRetries none b h p e = cc
  find_pending-HasRetries (some id) b h p e =
      lookup-AllEntries (λ i (p : PendingDelivery V). HasRetries p.task) id b.pending e h

  update_conn-IsSafe :
      (c : Option ℕ) (f : WorkerConnection → WorkerConnection) (b : BrokerServer V)
      → IsSafe b
      → IsSafe (update_conn c f b)
  unfolding update_conn
  update_conn-IsSafe none f b h = h
  update_conn-IsSafe (some i) f b h = h

  handle_publish-IsSafe :
      (reachable : ℕ → Bool) (peer : Peer) (t : Option (Task V)) (b : BrokerServer V)
      → ((u : Task V) → t ≡ some u → HasRetries u)
      → IsSafe b
      → IsSafe (handle_publish reachable peer t b).broker
  unfolding handle_publish
  handle_publish-IsSafe reachable peer none b sound h = h
  handle_publish-IsSafe reachable peer (some t) b sound h =
      (enqueue-IsQueued t b.queue (sound t refl) h.0, h.1)

  pop_listeners-IsSafe :
      (id : Option String) (b : BrokerServer V) → IsSafe b → IsSafe (pop_listeners id b)
  unfolding pop_listeners
  pop_listeners-IsSafe none b h = h
  pop_listeners-IsSafe (some id) b h = h

  pub handle_event-IsSafe :
      (reachable : ℕ → Bool) (now : ℕ) (peer : Peer) (e : Event V) (b : BrokerServer V)
      → IsSound (Move.handles reachable now peer e)
      → IsSafe b
      → IsSafe (handle_event reachable now peer e b).broker
  unfolding handle_event handle_message handle_subscribe handle_ack handle_nack handle_result
      handle_revoke
  handle_event-IsSafe reachable now peer (Event.received (Message.subscribe id queues)) b sound h =
      h
  handle_event-IsSafe reachable now peer (Event.received (Message.publish p)) b sound h =
      handle_publish-IsSafe reachable peer (task_of now p) b sound h
  handle_event-IsSafe reachable now peer (Event.received (Message.ack id)) b sound h =
      pop_pending-IsSafe id b h
  handle_event-IsSafe reachable now peer (Event.received (Message.nack id again)) b sound h =
      nack_found-IsSafe now _ (find_pending id b) (pop_pending id b) (pop_pending-IsSafe id b h)
  handle_event-IsSafe reachable now peer (Event.received (Message.result id payload)) b sound h =
      update_conn-IsSafe peer.worker_conn _ _
        (pop_listeners-IsSafe id (pop_pending id b) (pop_pending-IsSafe id b h))
  handle_event-IsSafe reachable now peer (Event.received (Message.revoke id)) b sound h =
      revoke_found-IsSafe id (find_pending id b) b (find_pending-HasRetries id b h.1) h
  handle_event-IsSafe reachable now peer (Event.received Message.stats) b sound h = h
  handle_event-IsSafe reachable now peer (Event.received Message.ping) b sound h = h
  handle_event-IsSafe reachable now peer (Event.received Message.pong) b sound h =
      update_conn-IsSafe peer.worker_conn _ b h
  handle_event-IsSafe reachable now peer (Event.received Message.other) b sound h = h
  handle_event-IsSafe reachable now peer Event.timed_out b sound h = h
  handle_event-IsSafe reachable now peer Event.closed b sound h = h
