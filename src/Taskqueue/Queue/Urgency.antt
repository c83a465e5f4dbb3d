-- ===== src/Taskqueue/Queue/Urgency.antt =====
-- broker/queue.py: which task leaves first, in the fields of the tasks.
use mathlib.Core.Option.{some-injective}
use container_platform.Prelude.{
  ℕ, zero, suc, ◌≤◌, ◌<◌, String, ◌≡◌, refl, ap, ◌∙◌, subst, ◌⊎◌, inl, inr, false, Option, none,
  some, List, [], ◌∷◌, arith, eq_iff, All, ltb, str_eq, Bool-cases,
}
use container_platform.Prelude.Dict
use container_platform.Prelude.Dict.{Dict, lookup-insert}
use container_platform.Taskqueue.Queue.{
  Task, QueueEntry, TaskQueue, key_lt, heap_push, heap_or_empty, entry_of, eta_or, count_or,
  enqueue, dequeue, dequeue_heap, requeue, size,
}
use container_platform.Taskqueue.Queue.Ordering.{IsBefore, IsOrdered, heap_push-All}
use container_platform.Taskqueue.Queue.Serving.{
  Call, enqueues, dequeues, requeues, calls, IsConsistent, calls-IsConsistent,
}

-- When a task is due: at its eta, if it has one, and else at once.
abbrev pub due_at : Option ℕ → ℕ → ℕ
due_at none created_at = created_at
due_at (some zero) created_at = created_at
due_at (some (suc eta)) created_at = suc eta

eta_or_lem : (eta : Option ℕ) (c : ℕ) → eta_or eta c ≡ due_at eta c
unfolding eta_or
eta_or_lem none c = refl
eta_or_lem (some zero) c = refl
eta_or_lem (some (suc e)) c = ground arith

module _ {V : Type 0} where
  abbrev pub due : Task V → ℕ
  due t = due_at t.eta t.created_at

  -- The first task has the lower number of priority, or with the same one it is due before, or with
  -- both the same it is not younger.
  abbrev pub LeavesFirst : Task V → Task V → Type 0
  LeavesFirst t u =
      (t.priority < u.priority)
      ⊎ ((t.priority ≡ u.priority)
          × ((due t < due u) ⊎ ((due t ≡ due u) × (t.created_at ≤ u.created_at))))

  -- An entry has the key of its task.
  abbrev HasOwnKey : QueueEntry V → Type 0
  HasOwnKey e = e.sort_key ≡ (entry_of e.task).sort_key

  HoldsTasks : TaskQueue V → Type 0
  HoldsTasks q = (name : String) → All HasOwnKey (heap_or_empty (Dict.lookup name q.heaps))

  IsBefore-LeavesFirst :
      (e f : QueueEntry V)
      → HasOwnKey e
      → HasOwnKey f
      → IsBefore e.sort_key f.sort_key
      → LeavesFirst e.task f.task
  unfolding key_lt entry_of
  IsBefore-LeavesFirst e f he hf b =
      let te = eta_or_lem e.task.eta e.task.created_at in
      let tf = eta_or_lem f.task.eta f.task.created_at in
      let b' : key_lt (entry_of f.task).sort_key (entry_of e.task).sort_key ≡ false =
        subst (λ k. key_lt k (entry_of e.task).sort_key ≡ false) hf
          (subst (λ k. key_lt f.sort_key k ≡ false) he b) in
      ground (arith, te, tf, b')

  with-HoldsTasks :
      (name : String) (h : List (QueueEntry V)) (n : Dict ℕ) (d : Option (Dict (Task V)))
      (q : TaskQueue V)
      → HoldsTasks q
      → All HasOwnKey h
      → HoldsTasks (record { heaps = Dict.insert name h q.heaps; counts = n; db = d })
  unfolding heap_or_empty HoldsTasks
  with-HoldsTasks name h n d q v all k = elim (Bool-cases (str_eq name k)) [
    | inl same ↦ rw (lookup-insert name k h q.heaps, same) all
    | inr other ↦ rw (lookup-insert name k h q.heaps, other) (v k)
  ]

  enqueue-HoldsTasks : (t : Task V) (q : TaskQueue V) → HoldsTasks q → HoldsTasks (enqueue t q)
  unfolding enqueue HoldsTasks
  enqueue-HoldsTasks t q v =
      with-HoldsTasks t.queue (heap_push (entry_of t) (heap_or_empty (Dict.lookup t.queue q.heaps)))
        (enqueue t q).counts (enqueue t q).db q v
        (heap_push-All HasOwnKey (entry_of t) _ (unfold entry_of in refl) (v t.queue))

  dequeue_heap-HoldsTasks :
      (name : String) (now : ℕ) (h : List (QueueEntry V)) (q : TaskQueue V)
      → All HasOwnKey h
      → HoldsTasks q
      → HoldsTasks (dequeue_heap name now h q).0
  unfolding dequeue_heap
  dequeue_heap-HoldsTasks name now [] q all v = v
  dequeue_heap-HoldsTasks name now (top ∷ rest) q all v =
      elim (Bool-cases (ltb now top.sort_key.eta)) [
        | inl early ↦ rw early v
        | inr is_due ↦ rw is_due (with-HoldsTasks name rest _ _ q v all.1)
      ]

  calls-HoldsTasks : (cs : List (Call V)) (q : TaskQueue V) → HoldsTasks q → HoldsTasks (calls cs q)
  unfolding calls
  calls-HoldsTasks [] q v = v
  calls-HoldsTasks (enqueues t ∷ cs) q v =
      calls-HoldsTasks cs (enqueue t q) (enqueue-HoldsTasks t q v)
  calls-HoldsTasks (dequeues name now ∷ cs) q v =
      calls-HoldsTasks cs (dequeue name now q).0
        (unfold dequeue in dequeue_heap-HoldsTasks name now _ q (unfold HoldsTasks in v name) v)
  calls-HoldsTasks (requeues now delay t ∷ cs) q v =
      calls-HoldsTasks cs (requeue now delay t q) (unfold requeue in enqueue-HoldsTasks _ q v)

  abbrev pub empty_queue : Option (Dict (Task V)) → TaskQueue V
  empty_queue d = record { heaps = []; counts = []; db = d }

  empty_queue-IsConsistent : (d : Option (Dict (Task V))) → IsConsistent (empty_queue d)
  unfolding heap_or_empty size count_or Dict.lookup
  empty_queue-IsConsistent d = record { ordered = λ name. tt; counted = λ name. refl }

  later_lem :
      (top : QueueEntry V) (rest : List (QueueEntry V))
      → HasOwnKey top
      → All HasOwnKey rest
      → All (λ y. IsBefore top.sort_key y.sort_key) rest
      → All (λ y. LeavesFirst top.task y.task) rest
  later_lem top [] own all before = tt
  later_lem top (y ∷ ys) own all before =
      (IsBefore-LeavesFirst top y own all.0 before.0, later_lem top ys own all.1 before.1)

  dequeue_heap-first :
      (name : String) (now : ℕ) (h : List (QueueEntry V)) (q : TaskQueue V) (t : Task V)
      → IsOrdered h
      → All HasOwnKey h
      → (dequeue_heap name now h q).1 ≡ some t
      → (top : QueueEntry V) × (rest : List (QueueEntry V)) × (h ≡ top ∷ rest)
        × (top.task ≡ t)
        × (due t ≤ now)
        × All (λ y. LeavesFirst t y.task) rest
        × (heap_or_empty (Dict.lookup name (dequeue_heap name now h q).0.heaps) ≡ rest)
  unfolding dequeue_heap heap_or_empty
  dequeue_heap-first name now [] q t o own took = cc
  dequeue_heap-first name now (top ∷ rest) q t o own took =
      elim (Bool-cases (ltb now top.sort_key.eta)) [
        | inl early ↦ let nothing : none ≡ some t = rw early at took in cc
        | inr is_due ↦
            let wrapped : some top.task ≡ some t = rw is_due at took in
            let same : top.task ≡ t = some-injective top.task t wrapped in
            let left = lookup-insert name name rest q.heaps in
            let eta : top.sort_key.eta ≡ due top.task =
              ap (λ k. k.eta) own.0
              ∙ unfold entry_of in eta_or_lem top.task.eta top.task.created_at in
            let in_time : due top.task ≤ now = ground (arith, is_due, eta) in
            (
              top,
              rest,
              refl,
              same,
              subst (λ u. due u ≤ now) same in_time,
              subst (λ u. All (λ y. LeavesFirst u y.task) rest) same
                  (later_lem top rest own.0 own.1 o.0),
              rw is_due (rw (left, (eq_iff name name).1 refl) refl),
            )
      ]

  -- After any calls on an empty queue, the task that `dequeue` gives is due, and none that stays in
  -- the queue of that name should have left before it: by the numbers of priority, then the times at
  -- which they are due, then their ages. Exactly its entry is gone.
  pub dequeue-first :
      (cs : List (Call V)) (d : Option (Dict (Task V))) (name : String) (now : ℕ) (t : Task V)
      → (dequeue name now (calls cs (empty_queue d))).1 ≡ some t
      → (top : QueueEntry V) × (rest : List (QueueEntry V)) × (heap_or_empty
            (Dict.lookup name (calls cs (empty_queue d)).heaps)
          ≡ top ∷ rest)
        × (top.task ≡ t)
        × (due t ≤ now)
        × All (λ y. LeavesFirst t y.task) rest
        × (heap_or_empty (Dict.lookup name (dequeue name now (calls cs (empty_queue d))).0.heaps)
            ≡ rest)
  dequeue-first cs d name now t took =
      let q = calls cs (empty_queue d) in
      let v = calls-IsConsistent cs (empty_queue d) (empty_queue-IsConsistent d) in
      let own =
        calls-HoldsTasks cs (empty_queue d)
          (unfold HoldsTasks heap_or_empty Dict.lookup in λ name. tt) in
      unfold dequeue in
      dequeue_heap-first name now _ q t (v.ordered name) (unfold HoldsTasks in own name)
        (unfold dequeue in took)
