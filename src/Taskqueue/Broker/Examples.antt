-- ===== src/Taskqueue/Broker/Examples.antt =====
-- A broker with one worker and one client.
use container_platform.Prelude.Dict
use container_platform.Prelude.{
  ℕ, ◌≤◌, String, ◌≡◌, refl, sym, ap, Bool, true, Option, none, some, List, [], ◌∷◌, arith,
}
use container_platform.Taskqueue.Queue.{
  Task, heap_push, heap_or_empty, entry_of, eta_or, key_lt, count_or, enqueue, persist_enqueue,
  persist_dequeue, dequeue, dequeue_heap, requeue,
}
use container_platform.Taskqueue.Broker.{
  Publication, Peer, Message, update_at, with_busy, send, pop_pending, find_pending, task_of,
  handle_subscribe, handle_ack, retry_task, nack_found, handle_nack, revoked, revoke_found,
  handle_revoke, handle_result, pop_listeners,
}
use container_platform.Taskqueue.Broker.Connection.{
  Event, update_conn, handle_publish, handle_message, handle_event, close_connection, conn_of,
  forget_worker,
}
use container_platform.Taskqueue.Broker.Loops.{
  running, record_delivery, take_back, waiting, expired, has_expired, requeue_expired,
  dispatch_pass, dispatch_workers, dispatch_worker, dispatch_conn, dispatch_taken, take_first,
  taken_or, reap, requeue_all,
}
use container_platform.Taskqueue.Broker.Steps.{
  System, Move, offer_of, taken, take_from, finish_offer, collect, requeue_next, move, run,
}
use container_platform.Taskqueue.Broker.Bounds.{IsBounded}
use container_platform.Taskqueue.Broker.Runs.{run-IsBounded}
use container_platform.Taskqueue.Broker.Holding.{IsHeld}
use container_platform.Taskqueue.Broker.Conserving.{run-IsHeld}
use container_platform.Taskqueue.Broker.Busy.{IsBusy}
use container_platform.Taskqueue.Broker.BusyRuns.{run-IsBusy}

abbrev worker : Peer
worker = record { sock = 1; default_id = "worker-40"; worker_conn = none }

abbrev client : Peer
client = record { sock = 2; default_id = "worker-41"; worker_conn = none }

abbrev job : Publication ℕ
job = record {
  task_id = some "t1";
  name = some "app.job";
  args = 0;
  kwargs = 0;
  queue = none;
  priority = none;
  retries = none;
  max_retries = some 1;
  retry_delay = none;
  timeout = none;
  eta = none;
}

abbrev all_reachable : ℕ → Bool
all_reachable s = true

abbrev hears : Peer → ℕ → Message ℕ → Move ℕ
hears peer now m = Move.handles all_reachable now peer (Event.received m)

abbrev nothing : System ℕ
nothing = record {
  broker = record {
    queue = record { heaps = []; counts = []; db = none };
    connections = [];
    workers = [];
    pending = [];
    result_listeners = [];
  };
  offer = none;
  to_requeue = [];
}

-- The worker subscribes, the client publishes, and the task is delivered.
abbrev delivery : List (Move ℕ)
delivery =
    hears worker 100 (Message.subscribe (some "w") none)
    ∷ hears client 110 (Message.publish job)
    ∷ Move.takes 120 0 "default"
    ∷ Move.delivers true 121
    ∷ []

-- Then it expires twice, and the second time there is no retry left.
abbrev expiry : List (Move ℕ)
expiry = Move.reaps 200 50 ∷ Move.requeues 201 ∷ []

abbrev retries_of : Option (Task ℕ) → ℕ
retries_of none = 0
retries_of (some t) = t.retries

abbrev max_retries_of : Option (Task ℕ) → ℕ
max_retries_of none = 0
max_retries_of (some t) = t.max_retries

program : Unit {0}
unfolding heap_push heap_or_empty entry_of eta_or key_lt count_or enqueue persist_enqueue
    persist_dequeue dequeue dequeue_heap requeue update_at with_busy send pop_pending find_pending
    task_of handle_subscribe handle_ack retry_task nack_found handle_nack revoked revoke_found
    handle_revoke handle_result pop_listeners update_conn handle_publish handle_message handle_event
    close_connection conn_of forget_worker running record_delivery take_back waiting expired
    has_expired requeue_expired offer_of taken take_from finish_offer collect requeue_next move run
    Dict.lookup Dict.insert Dict.remove Dict.values dispatch_pass dispatch_workers dispatch_worker
    dispatch_conn dispatch_taken take_first taken_or reap requeue_all
program = tt

-- `_dispatch_loop` alone makes the same delivery.
dispatch_pass_same :
    dispatch_pass all_reachable 121
      (run
        (hears worker 100 (Message.subscribe (some "w") none)
          ∷ hears client 110 (Message.publish job)
          ∷ [])
        nothing).broker
    ≡ (run delivery nothing).broker
unfolding program
dispatch_pass_same = refl

reap_twice :
    (reap 400 50
      (run
        (Move.takes 300 0 "default" ∷ Move.delivers true 300 ∷ [])
        (run expiry (run delivery nothing))).broker).pending
    ≡ []
unfolding program
reap_twice = refl

nothing-IsBounded : IsBounded nothing
unfolding program
nothing-IsBounded = record { queued = λ name. tt; delivered = tt; offered = tt; returning = tt }

job_fits : (t : Task ℕ) → task_of 110 job ≡ some t → t.retries ≤ t.max_retries
unfolding program
job_fits t e =
    let q : t.retries ≡ 0 = ap (λ o. retries_of o) (sym e) in
    let r : t.max_retries ≡ 1 = ap (λ o. max_retries_of o) (sym e) in omega (arith, q, r)

run-IsBounded_example : IsBounded (run delivery nothing)
unfolding program
run-IsBounded_example =
    run-IsBounded delivery nothing (tt, (job_fits, (tt, (tt, tt)))) nothing-IsBounded

delivered-IsHeld : IsHeld "t1" (run delivery nothing)
unfolding program
delivered-IsHeld = IsHeld.in_pending (_, refl, refl)

run-IsHeld_example : IsHeld "t1" (run expiry (run delivery nothing))
unfolding program
run-IsHeld_example =
    run-IsHeld "t1" expiry (run delivery nothing) (refl, (refl, tt)) delivered-IsHeld

abbrev refusal : List (Move ℕ)
refusal =
    hears (record worker { worker_conn = some 0 }) 130 (Message.ack (some "t1"))
    ∷ hears (record worker { worker_conn = some 0 }) 140 (Message.nack (some "t1") (some true))
    ∷ []

run-IsBusy_example :
    IsBusy 0 (run refusal (run delivery nothing)).broker
    × ((now : ℕ) (name : String)
        → move (Move.takes now 0 name) (run refusal (run delivery nothing))
          ≡ run refusal (run delivery nothing))
unfolding program
run-IsBusy_example = run-IsBusy 0 refusal (run delivery nothing) (refl, (refl, tt)) (_, refl, refl)
