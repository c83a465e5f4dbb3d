-- ===== src/Taskqueue/Broker/Loops.antt =====
-- broker/server.py: `_dispatch_loop` and `_reaper_loop`, in the parts that their locks make.
use container_platform.Prelude.Dict
use container_platform.Prelude.Dict.{Dict}
use container_platform.Prelude.{
  ℕ, ◌-◌, String, Bool, true, Option, none, some, List, [], ◌∷◌, get_elem?, ltb, if◌then◌else◌,
}
use container_platform.Taskqueue.Queue
use container_platform.Taskqueue.Queue.{Task, TaskState, TaskQueue, dequeue}
use container_platform.Taskqueue.Broker.{
  WorkerConnection, PendingDelivery, BrokerServer, update_at, with_busy, retry_task,
}

module _ {V : Type 0} where
  unfoldable pub running : Task V → Task V
  running t = record t { state = TaskState.running }

  -- The loop over the queues of a worker: the first that gives a task.
  unfoldable pub taken_or :
      (TaskQueue V → TaskQueue V × Option (Task V))
      → TaskQueue V × Option (Task V)
      → TaskQueue V × Option (Task V)
  taken_or next (q, none) = next q
  taken_or next (q, some t) = (q, some t)

  unfoldable pub take_first : ℕ → List String → TaskQueue V → TaskQueue V × Option (Task V)
  unfolding taken_or
  take_first now [] q = (q, none)
  take_first now (name ∷ names) q = taken_or (λ r. take_first now names r) (dequeue name now q)

  -- After a DELIVER that was written: what the lock covers.
  unfoldable pub record_delivery :
      ℕ → ℕ → WorkerConnection → Task V → BrokerServer V → BrokerServer V
  unfolding update_at with_busy
  record_delivery now i w t b = record b {
    connections = update_at i (with_busy true) b.connections;
    pending =
        Dict.insert t.task_id (record { task = t; worker_id = w.worker_id; delivered_at = now })
          b.pending;
  }

  -- After a DELIVER that failed.
  unfoldable pub take_back : ℕ → WorkerConnection → Task V → BrokerServer V → BrokerServer V
  unfolding Queue.requeue
  take_back now w t b = record b {
    queue = Queue.requeue now 0 t b.queue;
    workers = Dict.remove w.worker_id b.workers;
  }

  unfoldable pub dispatch_taken :
      (ℕ → Bool)
      → ℕ
      → ℕ
      → WorkerConnection
      → TaskQueue V × Option (Task V)
      → BrokerServer V
      → BrokerServer V
  unfolding record_delivery take_back running
  dispatch_taken reachable now i w (q, none) b = record b { queue = q }
  dispatch_taken reachable now i w (q, some t) b =
      if reachable w.sock
      then record_delivery now i w (running t) (record b { queue = q })
      else take_back now w (running t) (record b { queue = q })

  unfoldable pub dispatch_conn :
      (ℕ → Bool) → ℕ → ℕ → Option WorkerConnection → BrokerServer V → BrokerServer V
  unfolding dispatch_taken take_first
  dispatch_conn reachable now i none b = b
  dispatch_conn reachable now i (some w) b =
      if w.busy then b else dispatch_taken reachable now i w (take_first now w.queues b.queue) b

  unfoldable pub dispatch_worker : (ℕ → Bool) → ℕ → ℕ → BrokerServer V → BrokerServer V
  unfolding dispatch_conn
  dispatch_worker reachable now i b = dispatch_conn reachable now i (get_elem? b.connections i) b

  unfoldable pub dispatch_workers : (ℕ → Bool) → ℕ → List ℕ → BrokerServer V → BrokerServer V
  unfolding dispatch_worker
  dispatch_workers reachable now [] b = b
  dispatch_workers reachable now (i ∷ is) b =
      dispatch_workers reachable now is (dispatch_worker reachable now i b)

  -- A pass of the loop, when nothing happens in between.
  unfoldable pub dispatch_pass : (ℕ → Bool) → ℕ → BrokerServer V → BrokerServer V
  unfolding dispatch_workers
  dispatch_pass reachable now b = dispatch_workers reachable now (Dict.values b.workers) b

  unfoldable pub has_expired : ℕ → ℕ → PendingDelivery V → Bool
  has_expired now timeout p = ltb timeout (now - p.delivered_at)

  -- The pending deliveries that stay, and those that go back.
  unfoldable pub waiting : ℕ → ℕ → Dict (PendingDelivery V) → Dict (PendingDelivery V)
  unfolding has_expired
  waiting now timeout [] = []
  waiting now timeout ((id, p) ∷ d) =
      let rest = waiting now timeout d in if has_expired now timeout p then rest else (id, p) ∷ rest

  unfoldable pub expired : ℕ → ℕ → Dict (PendingDelivery V) → List (PendingDelivery V)
  unfolding has_expired
  expired now timeout [] = []
  expired now timeout ((id, p) ∷ d) =
      let rest = expired now timeout d in if has_expired now timeout p then p ∷ rest else rest

  unfoldable pub requeue_expired : ℕ → PendingDelivery V → BrokerServer V → BrokerServer V
  unfolding retry_task
  requeue_expired now p b = record b { queue = retry_task now 0 p.task b.queue }

  unfoldable pub requeue_all : ℕ → List (PendingDelivery V) → BrokerServer V → BrokerServer V
  unfolding requeue_expired
  requeue_all now [] b = b
  requeue_all now (p ∷ ps) b = requeue_all now ps (requeue_expired now p b)

  -- A pass of the reaper, when nothing happens in between.
  unfoldable pub reap : ℕ → ℕ → BrokerServer V → BrokerServer V
  unfolding waiting expired requeue_all
  reap now timeout b =
      requeue_all now (expired now timeout b.pending)
        (record b { pending = waiting now timeout b.pending })
