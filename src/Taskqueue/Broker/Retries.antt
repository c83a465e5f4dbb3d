-- ===== src/Taskqueue/Broker/Retries.antt =====
-- broker/server.py: the order of messages about one task, and the workers that are busy.
use container_platform.Prelude.Dict
use container_platform.Prelude.Dict.{
  Dict, lookup-insert, lookup-remove, remove-remove, remove-insert,
}
use container_platform.Prelude.{
  ℕ, String, ◌≡◌, refl, ap, ◌∙◌, Bool, true, false, Option, none, some, List, [], ◌∷◌, ◌++◌, eq_iff,
  get_elem?, length,
}
use container_platform.Taskqueue.Queue.{requeue}
use container_platform.Taskqueue.Broker.{
  PendingDelivery, BrokerServer, Peer, Message, get_or, find_pending, pop_pending, retry_task,
  nack_found, handle_nack, revoked, revoke_found, handle_revoke, handle_subscribe, handle_ack,
}
use container_platform.Taskqueue.Broker.Connection.{Event, close_connection, forget_worker, conn_of}
use container_platform.Taskqueue.Broker.Loops.{record_delivery}
use container_platform.Taskqueue.Broker.Steps.{Offer, System, Move, finish_offer, move}

get_elem?-second_last :
    {A : Type 0} (xs : List A) (x y : A)
    → get_elem? ((xs ++ (x ∷ [])) ++ (y ∷ [])) (length xs) ≡ some x
get_elem?-second_last [] x y = refl
get_elem?-second_last (z ∷ xs) x y = get_elem?-second_last xs x y

module _ {V : Type 0} where
  nack_found-none :
      (now : ℕ) (again : Bool) (found : Option (PendingDelivery V)) (b : BrokerServer V)
      → found ≡ none
      → nack_found now again found b ≡ b
  unfolding nack_found
  nack_found-none now again none b e = refl
  nack_found-none now again (some p) b e = cc

  -- A NACK that comes after the ACK of the same task does nothing, whether or not it asks for the
  -- task to be queued again.
  pub handle_nack-handle_ack :
      (now : ℕ) (id : String) (again : Option Bool) (b : BrokerServer V)
      → handle_nack now (some id) again (handle_ack (some id) b) ≡ handle_ack (some id) b
  unfolding handle_nack handle_ack find_pending pop_pending
  handle_nack-handle_ack now id again b =
      let gone : Dict.lookup id (Dict.remove id b.pending) ≡ none =
        lookup-remove id id b.pending ∙ rw ((eq_iff id id).1 refl) refl in
      nack_found-none now (get_or true again) _ _ gone
      ∙ ap (λ d. record b { pending = d }) (remove-remove id b.pending)

  nack_found-revoked :
      (now : ℕ) (again : Bool) (p : PendingDelivery V) (b : BrokerServer V)
      → nack_found now again (some (revoked p)) b ≡ nack_found now again (some p) b
  unfolding nack_found revoked retry_task requeue
  nack_found-revoked now true p b = refl
  nack_found-revoked now false p b = refl

  nack_revoked :
      (now : ℕ) (id : String) (again : Option Bool) (b : BrokerServer V)
      (found : Option (PendingDelivery V))
      → Dict.lookup id b.pending ≡ found
      → handle_nack now (some id) again (revoke_found (some id) found b)
        ≡ nack_found now (get_or true again) found (pop_pending (some id) b)
  unfolding handle_nack revoke_found find_pending pop_pending
  nack_revoked now id again b none e =
      ap
        (λ f.
          nack_found now (get_or true again) f (record b { pending = Dict.remove id b.pending }))
        e
  nack_revoked now id again b (some p) e =
      let there : Dict.lookup id (Dict.insert id (revoked p) b.pending) ≡ some (revoked p) =
        lookup-insert id id (revoked p) b.pending ∙ rw ((eq_iff id id).1 refl) refl in
      ap
        (λ f.
          nack_found now (get_or true again) f
            (record b { pending = Dict.remove id (Dict.insert id (revoked p) b.pending) }))
        there
      ∙ ap (λ d. nack_found now (get_or true again) (some (revoked p)) (record b { pending = d }))
          (remove-insert id (revoked p) b.pending)
      ∙ nack_found-revoked now (get_or true again) p
          (record b { pending = Dict.remove id b.pending })

  -- A REVOKE of a task is forgotten at its NACK: the broker is left as without the REVOKE, and the
  -- task is queued again if it has a retry left.
  pub handle_nack-handle_revoke :
      (now : ℕ) (id : String) (again : Option Bool) (b : BrokerServer V)
      → handle_nack now (some id) again (handle_revoke (some id) b)
        ≡ handle_nack now (some id) again b
  unfolding handle_nack handle_revoke find_pending
  handle_nack-handle_revoke now id again b =
      nack_revoked now id again b (Dict.lookup id b.pending) refl

  -- A connection that ends after its worker has subscribed again on another one removes the new
  -- registration: no worker has that id any more.
  pub close_connection-handle_subscribe :
      (now later : ℕ) (old new : Peer) (id : String) (queues other : Option (List String))
      (b : BrokerServer V)
      → Dict.lookup id
          (close_connection
            (record old { worker_conn = some (length b.connections) })
            (handle_subscribe later new
              (some id)
              other
              (handle_subscribe now old (some id) queues b))).workers
        ≡ none
  unfolding close_connection conn_of forget_worker handle_subscribe
  close_connection-handle_subscribe now later old new id queues other b =
      let both =
        handle_subscribe later new (some id) other (handle_subscribe now old (some id) queues b) in
      ap (λ w. Dict.lookup id (forget_worker w both).workers)
        (get_elem?-second_last b.connections _ _)
      ∙ lookup-remove id id both.workers
      ∙ rw ((eq_iff id id).1 refl) refl

  -- If a RESULT is handled while its task is in the hands of the dispatcher, which has written the
  -- DELIVER and not recorded it yet, the finished task is pending after the record.
  pub delivers-result :
      (reachable : ℕ → Bool) (now later : ℕ) (peer : Peer) (payload : V) (s : System V)
      (o : Offer V)
      → s.offer ≡ some o
      → Dict.lookup o.task.task_id
          (move (Move.delivers true later) (
            move
              (Move.handles reachable now peer
                (Event.received (Message.result (some o.task.task_id) payload)))
              s)).broker.pending
        ≡ some (record { task = o.task; worker_id = o.worker.worker_id; delivered_at = later })
  unfolding move finish_offer record_delivery
  delivers-result reachable now later peer payload s o e =
      let t : System V =
        move
          (Move.handles reachable now peer
            (Event.received (Message.result (some o.task.task_id) payload)))
          s in
      ap (λ x. Dict.lookup o.task.task_id (finish_offer true later x t).broker.pending) e
      ∙ lookup-insert o.task.task_id o.task.task_id _ t.broker.pending
      ∙ rw ((eq_iff o.task.task_id o.task.task_id).1 refl) refl
