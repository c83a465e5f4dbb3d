-- ===== src/Taskqueue/Broker/Runs.antt =====
-- broker/server.py: the retries of all tasks, whatever the threads do.
use container_platform.Prelude.Dict.{AllEntries-insert}
use container_platform.Prelude.{
  ℕ, ◌+◌, String, Bool, true, false, Option, none, some, List, [], ◌∷◌, All, if-branches, get_elem?,
}
use container_platform.Taskqueue.Queue.{TaskState, requeue}
use container_platform.Taskqueue.Broker.{WorkerConnection, PendingDelivery, BrokerServer}
use container_platform.Taskqueue.Broker.Connection.{close_connection, forget_worker, conn_of}
use container_platform.Taskqueue.Broker.Loops.{record_delivery, take_back, requeue_expired}
use container_platform.Taskqueue.Broker.Steps.{
  Offer, System, Move, take_from, finish_offer, collect, requeue_next, move, run,
}
use container_platform.Taskqueue.Broker.Bounds.{
  HasRetries, IsOffered, IsBounded, IsSound, enqueue-IsQueued, retry_task-IsQueued, taken-IsBounded,
  waiting-IsPending, expired-All,
}
use container_platform.Taskqueue.Broker.Handlers.{IsSafe, handle_event-IsSafe}

module _ {V : Type 0} where
  take_from-IsBounded :
      (now i : ℕ) (name : String) (w : Option WorkerConnection) (o : Option (Offer V))
      (s : System V)
      → IsBounded s
      → IsBounded (take_from now i name w o s)
  unfolding take_from
  take_from-IsBounded now i name none o s v = v
  take_from-IsBounded now i name (some w) (some o) s v = v
  take_from-IsBounded now i name (some w) none s v =
      if-branches IsBounded w.busy s _ v (taken-IsBounded now i name w s v)

  finish_offer-IsBounded :
      (written : Bool) (now : ℕ) (o : Option (Offer V)) (s : System V)
      → IsOffered o
      → IsBounded s
      → IsBounded (finish_offer written now o s)
  unfolding finish_offer record_delivery take_back requeue
  finish_offer-IsBounded written now none s h v = v
  finish_offer-IsBounded true now (some o) s h v = record {
    queued = v.queued;
    delivered =
        AllEntries-insert (λ i (p : PendingDelivery V). HasRetries p.task) o.task.task_id _
          s.broker.pending h v.delivered;
    offered = tt;
    returning = v.returning;
  }
  finish_offer-IsBounded false now (some o) s h v = record {
    queued =
        enqueue-IsQueued (record o.task { eta = some (now + 0); state = TaskState.retry })
          s.broker.queue h v.queued;
    delivered = v.delivered;
    offered = tt;
    returning = v.returning;
  }

  collect-IsBounded :
      (now timeout : ℕ) (ps : List (PendingDelivery V)) (s : System V)
      → IsBounded s
      → IsBounded (collect now timeout ps s)
  unfolding collect
  collect-IsBounded now timeout [] s v = record {
    queued = v.queued;
    delivered = waiting-IsPending now timeout s.broker.pending v.delivered;
    offered = v.offered;
    returning = expired-All now timeout s.broker.pending v.delivered;
  }
  collect-IsBounded now timeout (p ∷ ps) s v = v

  requeue_next-IsBounded :
      (now : ℕ) (ps : List (PendingDelivery V)) (s : System V)
      → All (λ p. HasRetries p.task) ps
      → IsBounded s
      → IsBounded (requeue_next now ps s)
  unfolding requeue_next requeue_expired
  requeue_next-IsBounded now [] s h v = v
  requeue_next-IsBounded now (p ∷ ps) s h v = record {
    queued = retry_task-IsQueued now 0 p.task s.broker.queue v.queued;
    delivered = v.delivered;
    offered = v.offered;
    returning = h.1;
  }

  forget_worker-IsSafe :
      (w : Option WorkerConnection) (b : BrokerServer V) → IsSafe b → IsSafe (forget_worker w b)
  unfolding forget_worker
  forget_worker-IsSafe none b h = h
  forget_worker-IsSafe (some w) b h = h

  -- A change of the broker alone.
  with_broker-IsBounded :
      (b : BrokerServer V) (s : System V)
      → IsSafe b
      → IsBounded s
      → IsBounded (record s { broker = b })
  with_broker-IsBounded b s h v = record {
    queued = h.0;
    delivered = h.1;
    offered = v.offered;
    returning = v.returning;
  }

  move-IsBounded : (m : Move V) (s : System V) → IsSound m → IsBounded s → IsBounded (move m s)
  unfolding move close_connection
  move-IsBounded (Move.handles reachable now peer e) s sound v =
      with_broker-IsBounded _ s
        (handle_event-IsSafe reachable now peer e s.broker sound (v.queued, v.delivered)) v
  move-IsBounded (Move.ends peer) s sound v =
      with_broker-IsBounded _ s
        (forget_worker-IsSafe (conn_of peer.worker_conn s.broker) s.broker (v.queued, v.delivered))
        v
  move-IsBounded (Move.takes now i name) s sound v =
      take_from-IsBounded now i name (get_elem? s.broker.connections i) s.offer s v
  move-IsBounded (Move.delivers written now) s sound v =
      finish_offer-IsBounded written now s.offer s v.offered v
  move-IsBounded (Move.reaps now timeout) s sound v = collect-IsBounded now timeout s.to_requeue s v
  move-IsBounded (Move.requeues now) s sound v =
      requeue_next-IsBounded now s.to_requeue s v.returning v

  -- If every publication asks for no more retries than it allows, then after any moves no task that
  -- the broker holds, in a heap, delivered or on its way back, has had more retries than it allows.
  pub run-IsBounded :
      (ms : List (Move V)) (s : System V) → All IsSound ms → IsBounded s → IsBounded (run ms s)
  unfolding run
  run-IsBounded [] s sound v = v
  run-IsBounded (m ∷ ms) s sound v =
      run-IsBounded ms (move m s) sound.1 (move-IsBounded m s sound.0 v)
