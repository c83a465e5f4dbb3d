-- ===== src/Taskqueue/Worker/Serving.antt =====
-- worker/worker.py with broker/server.py: what becomes of a task that fails.
use container_platform.Prelude.Dict
use container_platform.Prelude.Dict.{lookup-remove}
use container_platform.Prelude.{
  ℕ, ◌<◌, String, ◌≡◌, refl, ap, ◌∙◌, Bool, true, false, none, some, [], ◌∷◌, lt→ltb, str_eq,
  eq_iff,
}
use container_platform.Taskqueue.Broker.{
  BrokerServer, Peer, Message, get_or, handle_ack, pop_pending,
}
use container_platform.Taskqueue.Broker.Connection.{handle_message}
use container_platform.Taskqueue.Broker.Retries.{handle_nack-handle_ack}
use container_platform.Taskqueue.Worker.{
  Delivery, Ending, Report, Worker, done_message, on_done, handle_deliver, execute_task,
  messages_for, hears_all,
}

module _ {V : Type 0} where
  hears_two :
      (reachable : ℕ → Bool) (now : ℕ) (peer : Peer) (id : String) (b : BrokerServer V)
      → hears_all reachable now peer
          (Message.ack (some id) ∷ Message.nack (some id) (some true) ∷ [])
          b
        ≡ handle_ack (some id) b
  unfolding hears_all handle_message
  hears_two reachable now peer id b = handle_nack-handle_ack now id (some true) b

module _ {A V : Type 0} where
  failing_messages :
      (text_of : Report A → V) (p : Delivery) (error : String) (w : Worker)
      → str_eq error "" ≡ false
      → get_or 0 p.retries < get_or 3 p.max_retries
      → messages_for text_of p (Ending.raises error) w
        ≡ Message.ack (some p.task_id) ∷ Message.nack (some p.task_id) (some true) ∷ []
  unfolding messages_for handle_deliver on_done execute_task done_message
  failing_messages text_of p error w told left =
      rw (told, lt→ltb (get_or 0 p.retries) (get_or 3 p.max_retries) left) refl

  -- When a task raises an error with a text, and has retries left, then after the broker has handled
  -- the messages of the worker the task is not pending, the queues are as before the messages, and
  -- so are the workers: the task is not tried again, and a worker that was busy is busy still.
  pub hears_all-messages_for :
      (reachable : ℕ → Bool) (now : ℕ) (peer : Peer) (text_of : Report A → V) (p : Delivery)
      (error : String) (w : Worker) (b : BrokerServer V)
      → str_eq error "" ≡ false
      → get_or 0 p.retries < get_or 3 p.max_retries
      → (Dict.lookup p.task_id
            (hears_all reachable now peer
              (messages_for text_of p (Ending.raises error) w)
              b).pending
          ≡ none)
        × ((hears_all reachable now peer (messages_for text_of p (Ending.raises error) w) b).queue
            ≡ b.queue)
        × ((hears_all reachable now peer
              (messages_for text_of p (Ending.raises error) w)
              b).connections
            ≡ b.connections)
  hears_all-messages_for reachable now peer text_of p error w b told left =
      let e =
        ap (λ ms. hears_all reachable now peer ms b) (failing_messages text_of p error w told left)
        ∙ hears_two reachable now peer p.task_id b in
      unfold handle_ack pop_pending in
      (
        ap (λ (c : BrokerServer V). Dict.lookup p.task_id c.pending) e
            ∙ lookup-remove p.task_id p.task_id b.pending
            ∙ rw ((eq_iff p.task_id p.task_id).1 refl) refl,
        ap (λ (c : BrokerServer V). c.queue) e,
        ap (λ (c : BrokerServer V). c.connections) e,
      )
