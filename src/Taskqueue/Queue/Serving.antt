-- ===== src/Taskqueue/Queue/Serving.antt =====
-- broker/queue.py: which task leaves, and the counts beside the heaps.
use container_platform.Prelude.{
  ℕ, suc, ◌+◌, ◌≤◌, ◌<◌, String, ◌≡◌, refl, ap, ◌∙◌, subst, inl, inr, true, Option, none, some,
  List, [], ◌∷◌, arith, length, ltb, str_eq, Bool-cases,
}
use container_platform.Prelude.Dict
use container_platform.Prelude.Dict.{Dict, lookup-insert, lookup-remove}
use container_platform.Taskqueue.Queue.{
  Task, QueueEntry, TaskQueue, heap_push, heap_or_empty, entry_of, count_or, enqueue, dequeue,
  dequeue_heap, requeue, size, persist_enqueue, persist_dequeue,
}
use container_platform.Taskqueue.Queue.Ordering.{IsOrdered, heap_push-IsOrdered, length-heap_push}

-- A call that changes the queue.
pub data Call (V : Type 0) : Type 0 where
  enqueues : Task V → Call V
  dequeues : String → ℕ → Call V
  requeues : ℕ → ℕ → Task V → Call V

count_or_lem : (n : ℕ) (c : Option ℕ) → 0 < count_or c 0 → count_or c n ≡ count_or c 0
unfolding count_or
count_or_lem n none h = absurd (omega arith)
count_or_lem n (some c) h = refl

module _ {V : Type 0} where
  -- Every heap is in the order of its keys, and its count is its length.
  pub record IsConsistent (q : TaskQueue V) : Type 0 where
    pub ordered : (name : String) → IsOrdered (heap_or_empty (Dict.lookup name q.heaps))
    pub counted : (name : String) → size name q ≡ length (heap_or_empty (Dict.lookup name q.heaps))

  -- Changing one heap and its count together.
  with-IsConsistent :
      (name : String) (h : List (QueueEntry V)) (n : ℕ) (d : Option (Dict (Task V)))
      (q : TaskQueue V)
      → IsConsistent q
      → IsOrdered h
      → n ≡ length h
      → IsConsistent (record {
        heaps = Dict.insert name h q.heaps;
        counts = Dict.insert name n q.counts;
        db = d;
      })
  unfolding size heap_or_empty count_or
  with-IsConsistent name h n d q v o len = record {
    ordered = λ k. elim (Bool-cases (str_eq name k)) [
      | inl same ↦ rw (lookup-insert name k h q.heaps, same) o
      | inr other ↦ rw (lookup-insert name k h q.heaps, other) (v.ordered k)
    ];
    counted = λ k. elim (Bool-cases (str_eq name k)) [
      | inl same ↦ rw (lookup-insert name k h q.heaps, lookup-insert name k n q.counts, same) len
      | inr other ↦
          rw (lookup-insert name k h q.heaps, lookup-insert name k n q.counts, other) (v.counted k)
    ];
  }

  pub enqueue-IsConsistent :
      (t : Task V) (q : TaskQueue V) → IsConsistent q → IsConsistent (enqueue t q)
  unfolding enqueue
  enqueue-IsConsistent t q v =
      let h = heap_or_empty (Dict.lookup t.queue q.heaps) in
      let len : size t.queue q + 1 ≡ length (heap_push (entry_of t) h) =
        omega (arith, v.counted t.queue, length-heap_push (entry_of t) h) in
      with-IsConsistent t.queue (heap_push (entry_of t) h)
        (count_or (Dict.lookup t.queue q.counts) 0 + 1) (persist_enqueue t q.db) q v
        (heap_push-IsOrdered (entry_of t) h (v.ordered t.queue)) (unfold size in len)

  -- What `dequeue` does with a heap that is not empty.
  dequeue-cons :
      (name : String) (now : ℕ) (q : TaskQueue V) (top : QueueEntry V) (rest : List (QueueEntry V))
      → heap_or_empty (Dict.lookup name q.heaps) ≡ top ∷ rest
      → dequeue name now q ≡ dequeue_heap name now (top ∷ rest) q
  unfolding dequeue
  dequeue-cons name now q top rest e = ap (λ h. dequeue_heap name now h q) e

  dequeue_heap-IsConsistent :
      (name : String) (now : ℕ) (h : List (QueueEntry V)) (q : TaskQueue V)
      → heap_or_empty (Dict.lookup name q.heaps) ≡ h
      → IsConsistent q
      → IsConsistent (dequeue_heap name now h q).0
  unfolding dequeue_heap
  dequeue_heap-IsConsistent name now [] q e v = v
  dequeue_heap-IsConsistent name now (top ∷ rest) q e v =
      elim (Bool-cases (ltb now top.sort_key.eta)) [
        | inl early ↦ rw early v
        | inr due ↦
            let o : IsOrdered (top ∷ rest) = subst IsOrdered e (v.ordered name) in
            let len : size name q ≡ length (top ∷ rest) = v.counted name ∙ ap length e in
            let some_counted : 0 < count_or (Dict.lookup name q.counts) 0 =
              unfold size in omega (arith, len) in
            let counted : count_or (Dict.lookup name q.counts) 1 ≡ suc (length rest) =
              count_or_lem 1 (Dict.lookup name q.counts) some_counted ∙ (unfold size in len) in
            rw due (
              with-IsConsistent name rest _ (persist_dequeue top.task.task_id q.db) q v o.1
                (omega arith))
      ]

  pub dequeue-IsConsistent :
      (name : String) (now : ℕ) (q : TaskQueue V)
      → IsConsistent q
      → IsConsistent (dequeue name now q).0
  unfolding dequeue
  dequeue-IsConsistent name now q v = dequeue_heap-IsConsistent name now _ q refl v

  -- A task that is due can be held back: if the first entry of a heap is not due, `dequeue` gives
  -- nothing and changes nothing, though a later entry is due.
  pub dequeue_blocked :
      (name : String) (now : ℕ) (q : TaskQueue V) (top ready : QueueEntry V)
      (rest : List (QueueEntry V))
      → heap_or_empty (Dict.lookup name q.heaps) ≡ top ∷ ready ∷ rest
      → now < top.sort_key.eta
      → ready.sort_key.eta ≤ now
      → dequeue name now q ≡ (q, none)
  unfolding dequeue_heap
  dequeue_blocked name now q top ready rest e early due =
      let test : ltb now top.sort_key.eta ≡ true = ground (arith, early) in
      dequeue-cons name now q top (ready ∷ rest) e ∙ (rw test refl)

  requeue-IsConsistent :
      (t : Task V) (now delay : ℕ) (q : TaskQueue V)
      → IsConsistent q
      → IsConsistent (requeue now delay t q)
  unfolding requeue
  requeue-IsConsistent t now delay q v = enqueue-IsConsistent _ q v

  unfoldable pub calls : List (Call V) → TaskQueue V → TaskQueue V
  unfolding enqueue dequeue requeue
  calls [] q = q
  calls (enqueues t ∷ cs) q = calls cs (enqueue t q)
  calls (dequeues name now ∷ cs) q = calls cs (dequeue name now q).0
  calls (requeues now delay t ∷ cs) q = calls cs (requeue now delay t q)

  -- After any calls on a valid queue every heap is in the order of its keys, and its count is its length.
  pub calls-IsConsistent :
      (cs : List (Call V)) (q : TaskQueue V) → IsConsistent q → IsConsistent (calls cs q)
  unfolding calls
  calls-IsConsistent [] q v = v
  calls-IsConsistent (enqueues t ∷ cs) q v =
      calls-IsConsistent cs (enqueue t q) (enqueue-IsConsistent t q v)
  calls-IsConsistent (dequeues name now ∷ cs) q v =
      calls-IsConsistent cs (dequeue name now q).0 (dequeue-IsConsistent name now q v)
  calls-IsConsistent (requeues now delay t ∷ cs) q v =
      calls-IsConsistent cs (requeue now delay t q) (requeue-IsConsistent t now delay q v)
