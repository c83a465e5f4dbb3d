-- ===== src/Taskqueue/Worker.antt =====
-- worker/worker.py: `_handle_deliver` and its `_on_done`, with the messages that they send, and
-- `_execute_task`. What a task returns or raises is given. `text_of` stands for the payload of a
-- RESULT.
pub mod Serving
mod Examples
use container_platform.Prelude.Dict
use container_platform.Prelude.Dict.{Dict}
use container_platform.Prelude.{
  ℕ, String, Bool, true, false, not, Option, none, some, List, [], ◌∷◌, ltb, str_eq, if◌then◌else◌,
}
use container_platform.Taskqueue.Queue.{TaskState}
use container_platform.Taskqueue.Broker.{BrokerServer, Peer, Message, Handled, get_or}
use container_platform.Taskqueue.Broker.Connection.{handle_message}

-- The payload of DELIVER.
pub record Delivery : Type 0 where
  pub task_id : String
  pub name : String
  pub retries : Option ℕ
  pub max_retries : Option ℕ

-- How a call of the function of a task ends; the text is `str(exc)`.
pub data Ending (A : Type 0) : Type 0 where
  returns : A → Ending A
  raises : String → Ending A

-- What `fut.result` gives: the triple of `_execute_task`, a timeout, or what the pool raises.
pub data FutureResult (A : Type 0) : Type 0 where
  executed : Option A → String → FutureResult A
  timed_out : FutureResult A
  broken : String → FutureResult A

pub record Report (A : Type 0) : Type 0 where
  pub state : TaskState
  pub result : Option A
  pub error : String

pub record Worker : Type 0 where
  pub worker_id : String
  pub futures : Dict Delivery

module _ {A V : Type 0} where
  abbrev pub report : (Report A → V) → Delivery → TaskState → Option A → String → Message V
  report text_of p state result error =
      Message.result (some p.task_id)
        (text_of (record { state = state; result = result; error = error }))

  -- The end of a task with an error text, or with none.
  unfoldable pub done_message : (Report A → V) → Delivery → Option A → String → Message V
  done_message text_of p result error =
      if not (str_eq error "")
      then (if ltb (get_or 0 p.retries) (get_or 3 p.max_retries)
          then Message.nack (some p.task_id) (some true)
          else report text_of p TaskState.failure none error)
      else report text_of p TaskState.success result ""

  unfoldable pub on_done : (Report A → V) → Delivery → FutureResult A → Worker → Worker × Message V
  unfolding done_message
  on_done text_of p timed_out w =
      (w, Message.nack (some p.task_id) (some (ltb (get_or 0 p.retries) (get_or 3 p.max_retries))))
  on_done text_of p (executed result error) w =
      (record w { futures = Dict.remove p.task_id w.futures }, done_message text_of p result error)
  on_done text_of p (broken error) w =
      (record w { futures = Dict.remove p.task_id w.futures }, done_message text_of p none error)

module _ {V : Type 0} where
  -- The ACK comes before the task runs.
  unfoldable pub handle_deliver : Delivery → Worker → Worker × Message V
  handle_deliver p w =
      (record w { futures = Dict.insert p.task_id p w.futures }, Message.ack (some p.task_id))

module _ {A : Type 0} where
  -- `_execute_task` of a task that is registered
  unfoldable pub execute_task : Ending A → FutureResult A
  execute_task (returns a) = executed (some a) ""
  execute_task (raises error) = executed none error

module _ {A V : Type 0} where
  -- What the worker sends for a delivery whose task ends so.
  unfoldable pub messages_for : (Report A → V) → Delivery → Ending A → Worker → List (Message V)
  unfolding handle_deliver on_done execute_task
  messages_for text_of p ending w =
      let accepted : Worker × Message V = handle_deliver p w in
      accepted.1 ∷ (on_done text_of p (execute_task ending) accepted.0).1 ∷ []

module _ {V : Type 0} where
  -- The broker handles the messages of a connection.
  unfoldable pub hears_all :
      (ℕ → Bool) → ℕ → Peer → List (Message V) → BrokerServer V → BrokerServer V
  unfolding handle_message
  hears_all reachable now peer [] b = b
  hears_all reachable now peer (m ∷ ms) b =
      hears_all reachable now peer ms (handle_message reachable now peer m b).broker
