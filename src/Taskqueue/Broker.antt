-- ===== src/Taskqueue/Broker.antt =====
-- broker/server.py: `BrokerServer`. The objects for connections are in a store, and what refers to
-- one is its index there. A socket is a number, and `reachable` says to which a write succeeds. The
-- messages have the fields of their payloads that the broker reads. Times are in milliseconds.
pub mod Connection
pub mod Loops
pub mod Steps
pub mod Bounds
pub mod Handlers
pub mod Runs
pub mod Holding
pub mod Keeping
pub mod Returning
pub mod Retries
mod Examples
pub mod Busy
pub mod BusyRuns
pub mod Conserving
use container_platform.Prelude.Dict
use container_platform.Prelude.Dict.{Dict}
use container_platform.Prelude.{
  ℕ, zero, suc, ◌+◌, String, Bool, true, false, Option, none, some, List, [], ◌∷◌, ◌++◌, length,
  ltb, if◌then◌else◌, ◌>>=◌,
}
use container_platform.Taskqueue.Queue
use container_platform.Taskqueue.Queue.{Task, TaskState, TaskQueue}

pub record WorkerConnection : Type 0 where
  pub sock : ℕ
  pub worker_id : String
  pub queues : List String
  pub busy : Bool
  pub last_ping : ℕ

pub record PendingDelivery (V : Type 0) : Type 0 where
  pub task : Task V
  pub worker_id : String
  pub delivered_at : ℕ

pub record BrokerServer (V : Type 0) : Type 0 where
  pub queue : TaskQueue V
  pub connections : List WorkerConnection
  pub workers : Dict ℕ
  pub pending : Dict (PendingDelivery V)
  pub result_listeners : Dict (List ℕ)

-- The payload of PUBLISH.
pub record Publication (V : Type 0) : Type 0 where
  pub task_id : Option String
  pub name : Option String
  pub args : V
  pub kwargs : V
  pub queue : Option String
  pub priority : Option ℕ
  pub retries : Option ℕ
  pub max_retries : Option ℕ
  pub retry_delay : Option ℕ
  pub timeout : Option ℕ
  pub eta : Option ℕ

pub data Message (V : Type 0) : Type 0 where
  subscribe : Option String → Option (List String) → Message V
  publish : Publication V → Message V
  ack : Option String → Message V
  nack : Option String → Option Bool → Message V
  result : Option String → V → Message V
  revoke : Option String → Message V
  stats ping pong other : Message V

pub data Reply (V : Type 0) : Type 0 where
  confirm : String → Reply V
  forward : V → Reply V
  counts : List (String × ℕ) → ℕ → ℕ → Reply V
  ping pong : Reply V

-- The thread of a connection: its socket, `f"worker-{addr[1]}"` and its `worker_conn`.
pub record Peer : Type 0 where
  pub sock : ℕ
  pub default_id : String
  pub worker_conn : Option ℕ

-- What a handler leaves: a connection that is not open ends.
pub record Handled (V : Type 0) : Type 0 where
  pub broker : BrokerServer V
  pub peer : Peer
  pub sent : List (ℕ × Reply V)
  pub is_open : Bool

abbrev pub get_or : {A : Type 0} → A → Option A → A
get_or a none = a
get_or a (some x) = x

unfoldable pub update_at : {A : Type 0} → ℕ → (A → A) → List A → List A
update_at i f [] = []
update_at zero f (x ∷ xs) = f x ∷ xs
update_at (suc i) f (x ∷ xs) = x ∷ update_at i f xs

unfoldable pub with_busy : Bool → WorkerConnection → WorkerConnection
with_busy b w = record w { busy = b }

module _ {V : Type 0} where
  unfoldable pub send : (ℕ → Bool) → ℕ → Reply V → List (ℕ × Reply V)
  send reachable sock reply = if reachable sock then (sock, reply) ∷ [] else []

  unfoldable pub pop_pending : Option String → BrokerServer V → BrokerServer V
  pop_pending none b = b
  pop_pending (some id) b = record b { pending = Dict.remove id b.pending }

  unfoldable pub find_pending : Option String → BrokerServer V → Option (PendingDelivery V)
  find_pending none b = none
  find_pending (some id) b = Dict.lookup id b.pending

  -- The task of a PUBLISH, `none` if it has no id or name.
  unfoldable pub task_of : ℕ → Publication V → Option (Task V)
  task_of now p = do
    id ← p.task_id
    name ← p.name
    some record {
      task_id = id;
      name = name;
      args = p.args;
      kwargs = p.kwargs;
      queue = get_or "default" p.queue;
      priority = get_or 5 p.priority;
      retries = get_or 0 p.retries;
      max_retries = get_or 3 p.max_retries;
      retry_delay = get_or 5000 p.retry_delay;
      timeout = p.timeout;
      eta = p.eta;
      created_at = now;
      state = TaskState.queued;
    }

  unfoldable pub handle_subscribe :
      ℕ → Peer → Option String → Option (List String) → BrokerServer V → BrokerServer V
  handle_subscribe now peer id queues b =
      let name = get_or peer.default_id id in
      let conn : WorkerConnection = record {
        sock = peer.sock;
        worker_id = name;
        queues = get_or ("default" ∷ []) queues;
        busy = false;
        last_ping = now;
      } in
      record b {
        connections = b.connections ++ (conn ∷ []);
        workers = Dict.insert name (length b.connections) b.workers;
      }

  unfoldable pub handle_ack : Option String → BrokerServer V → BrokerServer V
  unfolding pop_pending
  handle_ack id b = pop_pending id b

  -- A task goes back with one retry more, if it has one left.
  unfoldable pub retry_task : ℕ → ℕ → Task V → TaskQueue V → TaskQueue V
  unfolding Queue.requeue
  retry_task now delay t q =
      if ltb t.max_retries (t.retries + 1)
      then q
      else Queue.requeue now delay (record t { retries = t.retries + 1 }) q

  unfoldable pub nack_found :
      ℕ → Bool → Option (PendingDelivery V) → BrokerServer V → BrokerServer V
  unfolding retry_task
  nack_found now again none b = b
  nack_found now false (some p) b = b
  nack_found now true (some p) b = record b {
    queue = retry_task now p.task.retry_delay p.task b.queue;
  }

  unfoldable pub handle_nack : ℕ → Option String → Option Bool → BrokerServer V → BrokerServer V
  unfolding pop_pending find_pending nack_found
  handle_nack now id again b =
      nack_found now (get_or true again) (find_pending id b) (pop_pending id b)

  send_all : (ℕ → Bool) → List ℕ → Reply V → List (ℕ × Reply V)
  unfolding send
  send_all reachable [] reply = []
  send_all reachable (s ∷ ss) reply = send reachable s reply ++ send_all reachable ss reply

  unfoldable pub pop_listeners : Option String → BrokerServer V → BrokerServer V
  pop_listeners none b = b
  pop_listeners (some id) b = record b { result_listeners = Dict.remove id b.result_listeners }

  find_listeners : Option String → BrokerServer V → List ℕ
  find_listeners none b = []
  find_listeners (some id) b = get_or [] (Dict.lookup id b.result_listeners)

  unfoldable pub handle_result :
      (ℕ → Bool) → Option String → V → BrokerServer V → BrokerServer V × List (ℕ × Reply V)
  unfolding pop_pending pop_listeners find_listeners send_all
  handle_result reachable id payload b = (
    pop_listeners id (pop_pending id b),
    send_all reachable (find_listeners id b) (Reply.forward payload),
  )

  unfoldable pub revoked : PendingDelivery V → PendingDelivery V
  revoked p = record p { task = record p.task { state = TaskState.revoked } }

  unfoldable pub revoke_found :
      Option String → Option (PendingDelivery V) → BrokerServer V → BrokerServer V
  unfolding revoked
  revoke_found none found b = b
  revoke_found (some id) none b = b
  revoke_found (some id) (some p) b = record b { pending = Dict.insert id (revoked p) b.pending }

  unfoldable pub handle_revoke : Option String → BrokerServer V → BrokerServer V
  unfolding revoke_found find_pending
  handle_revoke id b = revoke_found id (find_pending id b) b
