-- ===== src/Taskqueue/Examples.antt =====
-- A queue with an urgent task that is not due and one that is, frames of two messages, and the
-- theorems of the task queue at them.
use container_platform.Prelude.{
  ℕ, ◌≤◌, String, ◌≡◌, refl, sym, Option, none, some, List, [], ◌∷◌, append-nil, arith, All,
}
use container_platform.Prelude.Dict
use container_platform.Taskqueue.Queue.{
  Task, queued, QueueEntry, TaskQueue, key_lt, heap_push, heap_or_empty, entry_of, count_or,
  enqueue, dequeue, dequeue_heap, requeue, size, eta_or,
}
use container_platform.Taskqueue.Queue.Urgency.{LeavesFirst, dequeue-first}
use container_platform.Taskqueue.Queue.Serving.{
  Call, enqueues, calls, IsConsistent, calls-IsConsistent,
}
use container_platform.Taskqueue.Protocol.{ok, Socket}
use container_platform.Taskqueue.Protocol.Framing.{frames, read_messages, read_messages-frames}

abbrev task : String → ℕ → Option ℕ → Task ℕ
task id priority eta = record {
  task_id = id;
  name = "resize";
  args = 0;
  kwargs = 0;
  queue = "default";
  priority = priority;
  retries = 0;
  max_retries = 3;
  retry_delay = 5;
  timeout = none;
  eta = eta;
  created_at = 10;
  state = queued;
}

abbrev no_tasks : TaskQueue ℕ
no_tasks = record { heaps = []; counts = []; db = none }

no_tasks-IsConsistent : IsConsistent no_tasks
unfolding heap_or_empty size count_or Dict.lookup
no_tasks-IsConsistent = record { ordered = λ name. tt; counted = λ name. refl }

abbrev both : List (Call ℕ)
both = enqueues (task "late" 1 (some 90)) ∷ enqueues (task "ready" 5 none) ∷ []

abbrev waiting : TaskQueue ℕ
waiting = calls both no_tasks

program : Unit {0}
unfolding key_lt heap_push heap_or_empty entry_of count_or enqueue dequeue dequeue_heap requeue size
    eta_or calls Dict.lookup Dict.insert Dict.remove
program = tt

calls-IsConsistent_example : IsConsistent waiting
calls-IsConsistent_example = calls-IsConsistent both no_tasks no_tasks-IsConsistent

dequeue-first_example :
    (top : QueueEntry ℕ) × (rest : List (QueueEntry ℕ)) × (heap_or_empty
        (Dict.lookup "default" waiting.heaps)
      ≡ top ∷ rest)
    × (top.task ≡ task "late" 1 (some 90))
    × (90 ≤ 95)
    × All (λ y. LeavesFirst (task "late" 1 (some 90)) y.task) rest
    × (heap_or_empty (Dict.lookup "default" (dequeue "default" 95 waiting).0.heaps) ≡ rest)
unfolding program
dequeue-first_example = dequeue-first both none "default" 95 (task "late" 1 (some 90)) refl

-- A message is one byte here, and its text is that byte.
abbrev dumps : ℕ → List ℕ
dumps b = b ∷ []

abbrev loads : List ℕ → Option ℕ
loads (b ∷ []) = some b
loads _ = none

abbrev connection : Socket
connection = record { stream = frames dumps loads (7 ∷ 9 ∷ []); arrivals = 2 ∷ 0 ∷ 30 ∷ [] }

read_messages-frames_example :
    ((read_messages dumps loads 2 connection).1 ≡ ok 7 ∷ ok 9 ∷ [])
    × ((read_messages dumps loads 2 connection).0.stream ≡ [])
read_messages-frames_example =
    read_messages-frames dumps loads (7 ∷ 9 ∷ []) [] connection
      ((refl, omega arith), ((refl, omega arith), tt))
      (sym (append-nil (frames dumps loads (7 ∷ 9 ∷ []))))
