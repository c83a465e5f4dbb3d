-- ===== src/Taskqueue/Broker/Connection.antt =====
-- broker/server.py: `_handle_connection`, one message at a time, with the handlers that answer.
use container_platform.Prelude.Dict
use container_platform.Prelude.{
  ℕ, Bool, true, false, Option, none, some, List, [], length, get_elem?,
}
use container_platform.Taskqueue.Queue.{Task, enqueue}
use container_platform.Taskqueue.Broker.{
  WorkerConnection, BrokerServer, Message, Reply, Peer, Handled, update_at, with_busy, send,
  task_of, handle_subscribe, handle_ack, handle_nack, handle_result, handle_revoke,
}

-- What `read_message` gives, or raises.
pub data Event (V : Type 0) : Type 0 where
  received : Message V → Event V
  timed_out closed : Event V

unfoldable pub with_ping : ℕ → WorkerConnection → WorkerConnection
with_ping now w = record w { last_ping = now }

module _ {V : Type 0} where
  -- `worker_conn` is changed, if there is one.
  unfoldable pub update_conn :
      Option ℕ → (WorkerConnection → WorkerConnection) → BrokerServer V → BrokerServer V
  unfolding update_at
  update_conn none f b = b
  update_conn (some i) f b = record b { connections = update_at i f b.connections }

  -- A message without an id or a name raises, which ends the thread.
  unfoldable pub handle_publish : (ℕ → Bool) → Peer → Option (Task V) → BrokerServer V → Handled V
  unfolding send
  handle_publish reachable peer none b = record {
    broker = b;
    peer = peer;
    sent = [];
    is_open = false;
  }
  handle_publish reachable peer (some t) b = record {
    broker = record b { queue = enqueue t b.queue };
    peer = peer;
    sent = send reachable peer.sock (Reply.confirm t.task_id);
    is_open = true;
  }

  handle_stats : (ℕ → Bool) → Peer → BrokerServer V → List (ℕ × Reply V)
  unfolding send
  handle_stats reachable peer b =
      send reachable peer.sock (Reply.counts b.queue.counts (length b.workers) (length b.pending))

  abbrev stays : Peer → BrokerServer V → List (ℕ × Reply V) → Handled V
  stays peer b sent = record { broker = b; peer = peer; sent = sent; is_open = true }

  unfoldable pub handle_message : (ℕ → Bool) → ℕ → Peer → Message V → BrokerServer V → Handled V
  unfolding send update_conn handle_publish handle_stats
  handle_message reachable now peer (Message.subscribe id queues) b =
      stays (record peer { worker_conn = some (length b.connections) })
        (handle_subscribe now peer id queues b) []
  handle_message reachable now peer (Message.publish p) b =
      handle_publish reachable peer (task_of now p) b
  handle_message reachable now peer (Message.ack id) b = stays peer (handle_ack id b) []
  handle_message reachable now peer (Message.nack id again) b =
      stays peer (handle_nack now id again b) []
  handle_message reachable now peer (Message.result id payload) b =
      let handled = handle_result reachable id payload b in
      stays peer (update_conn peer.worker_conn (with_busy false) handled.0) handled.1
  handle_message reachable now peer (Message.revoke id) b = stays peer (handle_revoke id b) []
  handle_message reachable now peer Message.stats b = stays peer b (handle_stats reachable peer b)
  handle_message reachable now peer Message.ping b = record {
    broker = b;
    peer = peer;
    sent = send reachable peer.sock Reply.pong;
    is_open = reachable peer.sock;
  }
  handle_message reachable now peer Message.pong b =
      stays peer (update_conn peer.worker_conn (with_ping now) b) []
  handle_message reachable now peer Message.other b = stays peer b []

  unfoldable pub handle_event : (ℕ → Bool) → ℕ → Peer → Event V → BrokerServer V → Handled V
  unfolding send handle_message
  handle_event reachable now peer (Event.received m) b = handle_message reachable now peer m b
  handle_event reachable now peer Event.timed_out b = record {
    broker = b;
    peer = peer;
    sent = send reachable peer.sock Reply.ping;
    is_open = reachable peer.sock;
  }
  handle_event reachable now peer Event.closed b = record {
    broker = b;
    peer = peer;
    sent = [];
    is_open = false;
  }

  unfoldable pub forget_worker : Option WorkerConnection → BrokerServer V → BrokerServer V
  forget_worker none b = b
  forget_worker (some w) b = record b { workers = Dict.remove w.worker_id b.workers }

  unfoldable pub conn_of : Option ℕ → BrokerServer V → Option WorkerConnection
  conn_of none b = none
  conn_of (some i) b = get_elem? b.connections i

  -- The `finally` of a connection.
  unfoldable pub close_connection : Peer → BrokerServer V → BrokerServer V
  unfolding forget_worker conn_of
  close_connection peer b = forget_worker (conn_of peer.worker_conn b) b
