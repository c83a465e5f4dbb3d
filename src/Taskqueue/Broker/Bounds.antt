-- ===== src/Taskqueue/Broker/Bounds.antt =====
-- broker/server.py: the retries of all tasks that the broker holds.
use container_platform.Prelude.Dict.{Dict, AllEntries}
use container_platform.Prelude.{
  ℕ, ◌+◌, ◌≤◌, String, ◌≡◌, subst, sym, inl, inr, Option, none, some, [], ◌∷◌, All, ltb, str_eq,
  Bool-cases, arith,
}
use container_platform.Taskqueue.Queue.{
  Task, TaskState, TaskQueue, entry_of, enqueue, dequeue, requeue,
}
use container_platform.Taskqueue.Queue.Ordering.{heap_push-All}
use container_platform.Taskqueue.Queue.Heaps.{heap_of, heap_of-enqueue, dequeue-cases}
use container_platform.Taskqueue.Broker.{
  WorkerConnection, PendingDelivery, Message, retry_task, task_of,
}
use container_platform.Taskqueue.Broker.Connection.{Event}
use container_platform.Taskqueue.Broker.Loops.{running, waiting, expired, has_expired}
use container_platform.Taskqueue.Broker.Steps.{Offer, System, Move, offer_of, taken}

module _ {V : Type 0} where
  abbrev pub HasRetries : Task V → Type 0
  HasRetries t = t.retries ≤ t.max_retries

  abbrev pub IsOffered : Option (Offer V) → Type 0
  IsOffered none = Unit
  IsOffered (some o) = HasRetries o.task

  abbrev pub IsQueued : TaskQueue V → Type 0
  IsQueued q = (name : String) → All (λ e. HasRetries e.task) (heap_of name q)

  abbrev pub IsPending : Dict (PendingDelivery V) → Type 0
  IsPending d = AllEntries (λ id p. HasRetries p.task) d

  pub record IsBounded (s : System V) : Type 0 where
    pub queued : IsQueued s.broker.queue
    pub delivered : IsPending s.broker.pending
    pub offered : IsOffered s.offer
    pub returning : All (λ p. HasRetries p.task) s.to_requeue

  -- The publications among the moves come with no more retries than allowed.
  abbrev pub IsSound : Move V → Type 0
  IsSound (Move.handles reachable now peer (Event.received (Message.publish p))) =
      (t : Task V) → task_of now p ≡ some t → HasRetries t
  IsSound m = Unit

  pub enqueue-IsQueued :
      (t : Task V) (q : TaskQueue V) → HasRetries t → IsQueued q → IsQueued (enqueue t q)
  unfolding entry_of
  enqueue-IsQueued t q h all name =
      let e = heap_of-enqueue name t q in
      elim (Bool-cases (str_eq t.queue name)) [
        | inl same ↦
            rw (e, same)
              (heap_push-All (λ e. HasRetries e.task) (entry_of t) (heap_of t.queue q) h
                (all t.queue))
        | inr other ↦ rw (e, other) (all name)
      ]

  pub retry_task-IsQueued :
      (now delay : ℕ) (t : Task V) (q : TaskQueue V)
      → IsQueued q
      → IsQueued (retry_task now delay t q)
  unfolding retry_task requeue
  retry_task-IsQueued now delay t q all = elim (Bool-cases (ltb t.max_retries (t.retries + 1))) [
    | inl over ↦ rw over all
    | inr left ↦
        let fits : t.retries + 1 ≤ t.max_retries = ground arith in
        rw left (
          enqueue-IsQueued
            (record t {
              retries = t.retries + 1;
              eta = some (now + delay);
              state = TaskState.retry;
            })
            q fits all)
  ]

  pub taken-IsBounded :
      (now i : ℕ) (name : String) (w : WorkerConnection) (s : System V)
      → IsBounded s
      → IsBounded (taken i w (dequeue name now s.broker.queue) s)
  unfolding taken offer_of running
  taken-IsBounded now i name w s v = elim (dequeue-cases name now s.broker.queue) [
    | inl e ↦ rw e (record {
      queued = v.queued;
      delivered = v.delivered;
      offered = tt;
      returning = v.returning;
    })
    | inr (r, t, e, p) ↦ rw e (record {
      queued = λ k. elim (Bool-cases (str_eq name k)) [
        | inl same ↦
            rw (p.after k, same) (subst (All (λ e. HasRetries e.task)) p.before (v.queued name)).1
        | inr other ↦ rw (p.after k, other) (v.queued k)
      ];
      delivered = v.delivered;
      offered =
          subst HasRetries (sym p.is_top)
            (subst (All (λ e. HasRetries e.task)) p.before (v.queued name)).0;
      returning = v.returning;
    })
  ]

  pub waiting-IsPending :
      (now timeout : ℕ) (d : Dict (PendingDelivery V))
      → IsPending d
      → IsPending (waiting now timeout d)
  unfolding waiting
  waiting-IsPending now timeout [] h = tt
  waiting-IsPending now timeout ((id, p) ∷ d) h = elim (Bool-cases (has_expired now timeout p)) [
    | inl old ↦ rw old (waiting-IsPending now timeout d h.1)
    | inr young ↦ rw young (h.0, waiting-IsPending now timeout d h.1)
  ]

  pub expired-All :
      (now timeout : ℕ) (d : Dict (PendingDelivery V))
      → IsPending d
      → All (λ p. HasRetries p.task) (expired now timeout d)
  unfolding expired
  expired-All now timeout [] h = tt
  expired-All now timeout ((id, p) ∷ d) h = elim (Bool-cases (has_expired now timeout p)) [
    | inl old ↦ rw old (h.0, expired-All now timeout d h.1)
    | inr young ↦ rw young (expired-All now timeout d h.1)
  ]
