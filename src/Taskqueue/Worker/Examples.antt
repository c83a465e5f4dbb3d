-- ===== src/Taskqueue/Worker/Examples.antt =====
-- A worker whose task fails, and the broker that hears of it.
use container_platform.Prelude.Dict
use container_platform.Prelude.{ℕ, ◌≡◌, refl, Bool, true, false, none, some, [], ◌∷◌, arith}
use container_platform.Taskqueue.Queue.{TaskState}
use container_platform.Taskqueue.Broker.{BrokerServer, Peer, Message}
use container_platform.Taskqueue.Worker.{
  Delivery, Ending, Report, Worker, done_message, on_done, handle_deliver, execute_task,
  messages_for, hears_all,
}
use container_platform.Taskqueue.Worker.Serving.{hears_all-messages_for}

abbrev worker : Worker
worker = record { worker_id = "w"; futures = [] }

abbrev delivery : Delivery
delivery = record { task_id = "t1"; name = "app.job"; retries = none; max_retries = some 2 }

-- The payload of a RESULT, by what it says of success.
abbrev success_of : Report ℕ → Bool
success_of r = elim r.state [ TaskState.success ↦ true | _ ↦ false ]

-- An exception without a text is reported as a success.
silent_failure :
    messages_for success_of delivery (Ending.raises "") worker
    ≡ Message.ack (some "t1") ∷ Message.result (some "t1") true ∷ []
unfolding messages_for handle_deliver on_done execute_task done_message
silent_failure = refl

abbrev broker : BrokerServer Bool
broker = record {
  queue = record { heaps = []; counts = []; db = none };
  connections =
      record { sock = 1; worker_id = "w"; queues = "default" ∷ []; busy = true; last_ping = 0 }
      ∷ [];
  workers = ("w", 0) ∷ [];
  pending = [];
  result_listeners = [];
}

abbrev peer : Peer
peer = record { sock = 1; default_id = "worker-40"; worker_conn = some 0 }

abbrev reachable : ℕ → Bool
reachable s = true

abbrev heard : BrokerServer Bool
heard =
    hears_all reachable 50 peer (messages_for success_of delivery (Ending.raises "boom") worker)
      broker

hears_all-messages_for_example :
    (Dict.lookup "t1" heard.pending ≡ none)
    × (heard.queue ≡ broker.queue)
    × (heard.connections ≡ broker.connections)
hears_all-messages_for_example =
    hears_all-messages_for reachable 50 peer success_of delivery "boom" worker broker refl
      (omega arith)
