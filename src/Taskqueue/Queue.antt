-- ===== src/Taskqueue/Queue.antt =====
-- broker/queue.py: the queue of the broker, with the tasks of config.py. A heap is the list of its
-- entries in the order in which they leave, with equal keys in the order of arrival, which heapq
-- leaves open. The arguments of a task are JSON values, of any type `V`. The table of the database is
-- the tasks by their ids; a queue without one has `none`.
pub mod Ordering
pub mod Serving
pub mod Urgency
pub mod Heaps
use container_platform.Prelude.Dict
use container_platform.Prelude.Dict.{Dict}
use container_platform.Prelude.{
  ℕ, ◌+◌, ◌-◌, String, Bool, true, false, not, ◌&&◌, ◌||◌, Option, none, some, List, [], ◌∷◌, map,
  ltb, ◌==◌, if◌then◌else◌,
}

pub data TaskState : Type 0 where
  pending queued running success failure retry revoked : TaskState

pub record Task (V : Type 0) : Type 0 where
  pub task_id : String
  pub name : String
  pub args : V
  pub kwargs : V
  pub queue : String
  pub priority : ℕ
  pub retries : ℕ
  pub max_retries : ℕ
  pub retry_delay : ℕ
  pub timeout : Option ℕ
  pub eta : Option ℕ
  pub created_at : ℕ
  pub state : TaskState

pub record SortKey : Type 0 where
  pub priority : ℕ
  pub eta : ℕ
  pub created_at : ℕ

-- `<` on the tuples
unfoldable pub key_lt : SortKey → SortKey → Bool
key_lt a b =
    ltb a.priority b.priority
    || a.priority == b.priority
      && (ltb a.eta b.eta || a.eta == b.eta && ltb a.created_at b.created_at)

-- `task.eta or task.created_at`
unfoldable pub eta_or : Option ℕ → ℕ → ℕ
eta_or none created_at = created_at
eta_or (some eta) created_at = if eta == 0 then created_at else eta

pub record QueueEntry (V : Type 0) : Type 0 where
  pub sort_key : SortKey
  pub task : Task V

pub record TaskQueue (V : Type 0) : Type 0 where
  pub heaps : Dict (List (QueueEntry V))
  pub counts : Dict ℕ
  pub db : Option (Dict (Task V))

unfoldable pub count_or : Option ℕ → ℕ → ℕ
count_or none n = n
count_or (some c) n = c

module _ {V : Type 0} where
  unfoldable pub heap_push : QueueEntry V → List (QueueEntry V) → List (QueueEntry V)
  heap_push e [] = e ∷ []
  heap_push e (x ∷ xs) =
      let rest = heap_push e xs in if key_lt e.sort_key x.sort_key then e ∷ x ∷ xs else x ∷ rest

  unfoldable pub heap_or_empty : Option (List (QueueEntry V)) → List (QueueEntry V)
  heap_or_empty none = []
  heap_or_empty (some h) = h

  unfoldable pub entry_of : Task V → QueueEntry V
  unfolding eta_or
  entry_of t = record {
    sort_key = record {
      priority = t.priority;
      eta = eta_or t.eta t.created_at;
      created_at = t.created_at;
    };
    task = t;
  }

  unfoldable pub persist_enqueue : Task V → Option (Dict (Task V)) → Option (Dict (Task V))
  persist_enqueue t none = none
  persist_enqueue t (some d) = some (Dict.insert t.task_id t d)

  unfoldable pub persist_dequeue : String → Option (Dict (Task V)) → Option (Dict (Task V))
  persist_dequeue id none = none
  persist_dequeue id (some d) = some (Dict.remove id d)

  unfoldable pub enqueue : Task V → TaskQueue V → TaskQueue V
  unfolding heap_push heap_or_empty entry_of persist_enqueue count_or
  enqueue t q = record {
    heaps =
        Dict.insert t.queue (heap_push (entry_of t) (heap_or_empty (Dict.lookup t.queue q.heaps)))
          q.heaps;
    counts = Dict.insert t.queue (count_or (Dict.lookup t.queue q.counts) 0 + 1) q.counts;
    db = persist_enqueue t q.db;
  }

  -- `dequeue` with the entries of the heap.
  unfoldable pub dequeue_heap :
      String → ℕ → List (QueueEntry V) → TaskQueue V → TaskQueue V × Option (Task V)
  unfolding persist_dequeue count_or
  dequeue_heap name now [] q = (q, none)
  dequeue_heap name now (top ∷ rest) q = if ltb now top.sort_key.eta then (q, none) else (
    record {
      heaps = Dict.insert name rest q.heaps;
      counts = Dict.insert name (count_or (Dict.lookup name q.counts) 1 - 1) q.counts;
      db = persist_dequeue top.task.task_id q.db;
    },
    some top.task,
  )

  unfoldable pub dequeue : String → ℕ → TaskQueue V → TaskQueue V × Option (Task V)
  unfolding dequeue_heap heap_or_empty
  dequeue name now q = dequeue_heap name now (heap_or_empty (Dict.lookup name q.heaps)) q

  unfoldable pub requeue : ℕ → ℕ → Task V → TaskQueue V → TaskQueue V
  unfolding enqueue
  requeue now delay t q = enqueue (record t { eta = some (now + delay); state = retry }) q

  unfoldable pub size : String → TaskQueue V → ℕ
  unfolding count_or
  size name q = count_or (Dict.lookup name q.counts) 0

  pub queue_names : TaskQueue V → List String
  queue_names q = map (λ e. e.0) q.heaps

  enqueue_all : List (QueueEntry V) → TaskQueue V → TaskQueue V
  unfolding enqueue
  enqueue_all [] q = q
  enqueue_all (e ∷ es) q = enqueue_all es (enqueue e.task q)

  -- The rows of the table in the order of `ORDER BY priority, eta, created_at`.
  rows : List (Task V) → List (QueueEntry V)
  unfolding heap_push entry_of
  rows [] = []
  rows (t ∷ ts) = let rest = rows ts in heap_push (entry_of (record t { state = queued })) rest

  -- A queue that opens a database: the tasks in it come back, in state `queued`.
  unfoldable pub open_queue : Option (Dict (Task V)) → TaskQueue V
  unfolding enqueue_all rows
  open_queue none = record { heaps = []; counts = []; db = none }
  open_queue (some d) =
      enqueue_all (rows (Dict.values d)) (record { heaps = []; counts = []; db = some d })
