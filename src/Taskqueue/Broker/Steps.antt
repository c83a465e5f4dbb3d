-- ===== src/Taskqueue/Broker/Steps.antt =====
-- broker/server.py: the threads of the broker as moves. The thread of a connection handles one event
-- or ends; the dispatcher takes a task, and records or takes back what it has written; the reaper
-- collects what has expired, and puts one back at a time.
use container_platform.Prelude.{
  ℕ, String, Bool, true, false, Option, none, some, List, [], ◌∷◌, get_elem?, if◌then◌else◌,
}
use container_platform.Taskqueue.Queue.{Task, TaskQueue, dequeue}
use container_platform.Taskqueue.Broker.{WorkerConnection, PendingDelivery, BrokerServer, Peer}
use container_platform.Taskqueue.Broker.Connection.{Event, handle_event, close_connection}
use container_platform.Taskqueue.Broker.Loops.{
  running, record_delivery, take_back, waiting, expired, requeue_expired,
}

-- A task in the hands of the dispatcher, with the object of its worker.
pub record Offer (V : Type 0) : Type 0 where
  pub conn : ℕ
  pub worker : WorkerConnection
  pub task : Task V

pub record System (V : Type 0) : Type 0 where
  pub broker : BrokerServer V
  pub offer : Option (Offer V)
  pub to_requeue : List (PendingDelivery V)

pub data Move (V : Type 0) : Type 0 where
  handles : (ℕ → Bool) → ℕ → Peer → Event V → Move V
  ends : Peer → Move V
  takes : ℕ → ℕ → String → Move V
  delivers : Bool → ℕ → Move V
  reaps : ℕ → ℕ → Move V
  requeues : ℕ → Move V

module _ {V : Type 0} where
  unfoldable pub offer_of : ℕ → WorkerConnection → Option (Task V) → Option (Offer V)
  unfolding running
  offer_of i w none = none
  offer_of i w (some t) = some (record { conn = i; worker = w; task = running t })

  unfoldable pub taken : ℕ → WorkerConnection → TaskQueue V × Option (Task V) → System V → System V
  unfolding offer_of
  taken i w (q, t) s = record s { broker = record s.broker { queue = q }; offer = offer_of i w t }

  -- A queue of an idle worker, when the dispatcher has nothing in its hands.
  unfoldable pub take_from :
      ℕ → ℕ → String → Option WorkerConnection → Option (Offer V) → System V → System V
  unfolding taken
  take_from now i name none o s = s
  take_from now i name (some w) (some o) s = s
  take_from now i name (some w) none s =
      if w.busy then s else taken i w (dequeue name now s.broker.queue) s

  unfoldable pub finish_offer : Bool → ℕ → Option (Offer V) → System V → System V
  finish_offer written now none s = s
  finish_offer true now (some o) s = record s {
    broker = record_delivery now o.conn o.worker o.task s.broker;
    offer = none;
  }
  finish_offer false now (some o) s = record s {
    broker = take_back now o.worker o.task s.broker;
    offer = none;
  }

  unfoldable pub collect : ℕ → ℕ → List (PendingDelivery V) → System V → System V
  collect now timeout [] s = record s {
    broker = record s.broker { pending = waiting now timeout s.broker.pending };
    to_requeue = expired now timeout s.broker.pending;
  }
  collect now timeout (p ∷ ps) s = s

  unfoldable pub requeue_next : ℕ → List (PendingDelivery V) → System V → System V
  requeue_next now [] s = s
  requeue_next now (p ∷ ps) s = record s {
    broker = requeue_expired now p s.broker;
    to_requeue = ps;
  }

  unfoldable pub move : Move V → System V → System V
  unfolding take_from finish_offer collect requeue_next
  move (Move.handles reachable now peer e) s = record s {
    broker = (handle_event reachable now peer e s.broker).broker;
  }
  move (Move.ends peer) s = record s { broker = close_connection peer s.broker }
  move (Move.takes now i name) s = take_from now i name (get_elem? s.broker.connections i) s.offer s
  move (Move.delivers written now) s = finish_offer written now s.offer s
  move (Move.reaps now timeout) s = collect now timeout s.to_requeue s
  move (Move.requeues now) s = requeue_next now s.to_requeue s

  unfoldable pub run : List (Move V) → System V → System V
  unfolding move
  run [] s = s
  run (m ∷ ms) s = run ms (move m s)
