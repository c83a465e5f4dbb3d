-- ===== src/Taskqueue/Broker/BusyRuns.antt =====
-- broker/server.py: a worker that has a task gets no other one before its RESULT.
use container_platform.Prelude.{
  ℕ, String, ◌≡◌, refl, ap, ◌∙◌, Bool, true, false, Option, none, some, List, [], ◌∷◌, All,
  if◌then◌else◌, if-branches, get_elem?,
}
use container_platform.Taskqueue.Queue.{dequeue}
use container_platform.Taskqueue.Broker.{WorkerConnection, PendingDelivery, with_busy}
use container_platform.Taskqueue.Broker.Connection.{close_connection, conn_of}
use container_platform.Taskqueue.Broker.Loops.{record_delivery, take_back, requeue_expired}
use container_platform.Taskqueue.Broker.Steps.{
  Offer, System, Move, taken, take_from, finish_offer, collect, requeue_next, move, run,
}
use container_platform.Taskqueue.Broker.Busy.{
  stay, update_at-IsBusyIn, IsBusy, is_result_of, forget_worker_connections, handle_event-IsBusy,
}

module _ {V : Type 0} where
  finish_offer-IsBusy :
      (i : ℕ) (written : Bool) (now : ℕ) (o : Option (Offer V)) (s : System V)
      → IsBusy i s.broker
      → IsBusy i (finish_offer written now o s).broker
  unfolding finish_offer record_delivery take_back with_busy
  finish_offer-IsBusy i written now none s busy = busy
  finish_offer-IsBusy i true now (some o) s busy =
      update_at-IsBusyIn i o.conn (with_busy true) s.broker.connections (λ here w h. refl) busy
  finish_offer-IsBusy i false now (some o) s busy = busy

  collect-IsBusy :
      (i now timeout : ℕ) (ps : List (PendingDelivery V)) (s : System V)
      → IsBusy i s.broker
      → IsBusy i (collect now timeout ps s).broker
  unfolding collect
  collect-IsBusy i now timeout [] s busy = busy
  collect-IsBusy i now timeout (p ∷ ps) s busy = busy

  requeue_next-IsBusy :
      (i now : ℕ) (ps : List (PendingDelivery V)) (s : System V)
      → IsBusy i s.broker
      → IsBusy i (requeue_next now ps s).broker
  unfolding requeue_next requeue_expired
  requeue_next-IsBusy i now [] s busy = busy
  requeue_next-IsBusy i now (p ∷ ps) s busy = busy

  take_from-IsBusy :
      (i now j : ℕ) (name : String) (w : Option WorkerConnection) (o : Option (Offer V))
      (s : System V)
      → IsBusy i s.broker
      → IsBusy i (take_from now j name w o s).broker
  unfolding take_from taken
  take_from-IsBusy i now j name none o s busy = busy
  take_from-IsBusy i now j name (some w) (some o) s busy = busy
  take_from-IsBusy i now j name (some w) none s busy =
      if-branches (λ (t : System V). IsBusy i t.broker) w.busy s
        (taken j w (dequeue name now s.broker.queue) s) busy busy

  move-IsBusy :
      (i : ℕ) (m : Move V) (s : System V)
      → is_result_of i m ≡ false
      → IsBusy i s.broker
      → IsBusy i (move m s).broker
  unfolding move close_connection
  move-IsBusy i (Move.handles reachable now peer e) s others busy =
      handle_event-IsBusy i reachable now peer e s.broker others busy
  move-IsBusy i (Move.ends peer) s others busy =
      stay i (forget_worker_connections (conn_of peer.worker_conn s.broker) s.broker) busy
  move-IsBusy i (Move.takes now j name) s others busy =
      take_from-IsBusy i now j name (get_elem? s.broker.connections j) s.offer s busy
  move-IsBusy i (Move.delivers written now) s others busy =
      finish_offer-IsBusy i written now s.offer s busy
  move-IsBusy i (Move.reaps now timeout) s others busy =
      collect-IsBusy i now timeout s.to_requeue s busy
  move-IsBusy i (Move.requeues now) s others busy = requeue_next-IsBusy i now s.to_requeue s busy

  takes_nothing :
      (i now : ℕ) (name : String) (o : Option (Offer V)) (s : System V)
      → IsBusy i s.broker
      → take_from now i name (get_elem? s.broker.connections i) o s ≡ s
  unfolding take_from
  takes_nothing i now name none s (w, e, busy) =
      ap (λ x. take_from now i name x none s) e
      ∙ ap (λ b. if b then s else taken i w (dequeue name now s.broker.queue) s) busy
  takes_nothing i now name (some o) s (w, e, busy) = ap (λ x. take_from now i name x (some o) s) e

  run_unchanged :
      (i : ℕ) (ms : List (Move V)) (s : System V)
      → All (λ m. is_result_of i m ≡ false) ms
      → IsBusy i s.broker
      → IsBusy i (run ms s).broker
  unfolding run
  run_unchanged i [] s others busy = busy
  run_unchanged i (m ∷ ms) s others busy =
      run_unchanged i ms (move m s) others.1 (move-IsBusy i m s others.0 busy)

  -- A worker that is busy stays so in any moves of which none is a RESULT on its connection, such as
  -- an ACK and a NACK of its task, and the dispatcher then takes no task for it.
  pub run-IsBusy :
      (i : ℕ) (ms : List (Move V)) (s : System V)
      → All (λ m. is_result_of i m ≡ false) ms
      → IsBusy i s.broker
      → IsBusy i (run ms s).broker
        × ((now : ℕ) (name : String) → move (Move.takes now i name) (run ms s) ≡ run ms s)
  unfolding move
  run-IsBusy i ms s others busy =
      let after = run_unchanged i ms s others busy in
      (after, λ now name. takes_nothing i now name (run ms s).offer (run ms s) after)
