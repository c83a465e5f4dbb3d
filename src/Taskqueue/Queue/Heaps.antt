-- ===== src/Taskqueue/Queue/Heaps.antt =====
-- broker/queue.py: the heap of each name after a call.
use container_platform.Prelude.Dict
use container_platform.Prelude.Dict.{lookup-insert}
use container_platform.Prelude.{
  ℕ, String, ◌≡◌, refl, inl, inr, Bool, false, ◌||◌, none, some, List, [], ◌∷◌, ◌-◌, ltb, str_eq,
  if◌then◌else◌, Bool-cases, ◌⊎◌, arith,
}
use container_platform.Taskqueue.Queue.{
  Task, QueueEntry, TaskQueue, heap_push, heap_or_empty, entry_of, enqueue, dequeue, dequeue_heap,
  count_or, persist_dequeue,
}

module _ {V : Type 0} where
  abbrev pub heap_of : String → TaskQueue V → List (QueueEntry V)
  heap_of name q = heap_or_empty (Dict.lookup name q.heaps)

  abbrev pub has_task : String → List (QueueEntry V) → Bool
  has_task id [] = false
  has_task id (e ∷ es) = str_eq e.task.task_id id || has_task id es

  pub has_task-heap_push :
      (id : String) (e : QueueEntry V) (h : List (QueueEntry V))
      → has_task id (heap_push e h) ≡ (str_eq e.task.task_id id || has_task id h)
  unfolding heap_push
  has_task-heap_push id e [] = refl
  has_task-heap_push id e (x ∷ xs) = ground (arith, has_task-heap_push id e xs)

  pub heap_of-enqueue :
      (k : String) (t : Task V) (q : TaskQueue V)
      → heap_of k (enqueue t q)
        ≡ (if str_eq t.queue k then heap_push (entry_of t) (heap_of t.queue q) else heap_of k q)
  unfolding enqueue heap_or_empty
  heap_of-enqueue k t q = elim (Bool-cases (str_eq t.queue k)) [
    | inl same ↦ rw (lookup-insert t.queue k _ q.heaps, same) refl
    | inr other ↦ rw (lookup-insert t.queue k _ q.heaps, other) refl
  ]

  -- What a call of `dequeue` did: nothing, or the first entry of a heap has left.
  pub record IsPopped (name : String) (q r : TaskQueue V) (t : Task V) : Type 0 where
    pub top : QueueEntry V
    pub rest : List (QueueEntry V)
    pub is_top : t ≡ top.task
    pub before : heap_of name q ≡ top ∷ rest
    pub after : (k : String) → heap_of k r ≡ (if str_eq name k then rest else heap_of k q)

  dequeue_heap-cases :
      (name : String) (now : ℕ) (h : List (QueueEntry V)) (q : TaskQueue V)
      → heap_of name q ≡ h
      → (dequeue_heap name now h q ≡ (q, none))
        ⊎ ((r : TaskQueue V) × (t : Task V) × (dequeue_heap name now h q ≡ (r, some t))
            × IsPopped name q r t)
  unfolding dequeue_heap heap_or_empty
  dequeue_heap-cases name now [] q e = inl refl
  dequeue_heap-cases name now (top ∷ rest) q e = elim (Bool-cases (ltb now top.sort_key.eta)) [
    | inl early ↦ inl (rw early refl)
    | inr due ↦
        let r : TaskQueue V = record {
          heaps = Dict.insert name rest q.heaps;
          counts = Dict.insert name (count_or (Dict.lookup name q.counts) 1 - 1) q.counts;
          db = persist_dequeue top.task.task_id q.db;
        } in
        inr (
          r,
          top.task,
          rw due refl,
          record {
            top = top;
            rest = rest;
            is_top = refl;
            before = e;
            after = λ k. elim (Bool-cases (str_eq name k)) [
              | inl same ↦ rw (lookup-insert name k rest q.heaps, same) refl
              | inr other ↦ rw (lookup-insert name k rest q.heaps, other) refl
            ];
          },
        )
  ]

  pub dequeue-cases :
      (name : String) (now : ℕ) (q : TaskQueue V)
      → (dequeue name now q ≡ (q, none))
        ⊎ ((r : TaskQueue V) × (t : Task V) × (dequeue name now q ≡ (r, some t))
            × IsPopped name q r t)
  unfolding dequeue
  dequeue-cases name now q = dequeue_heap-cases name now _ q refl
