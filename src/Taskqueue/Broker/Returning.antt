-- ===== src/Taskqueue/Broker/Returning.antt =====
-- broker/server.py: the reaper loses no task.
use container_platform.Prelude.Dict
use container_platform.Prelude.Dict.{Dict, lookup-insert, lookup-remove}
use container_platform.Prelude.{
  ℕ, String, ◌≡◌, refl, sym, ap, ◌∙◌, subst, ◌⊎◌, inl, inr, true, false, not, ◌||◌, List, [], ◌∷◌,
  str_eq, Bool-cases, arith, eq_iff,
}
use container_platform.Taskqueue.Broker.{PendingDelivery, retry_task}
use container_platform.Taskqueue.Broker.Loops.{waiting, expired, has_expired, requeue_expired}
use container_platform.Taskqueue.Broker.Steps.{System, collect, requeue_next}
use container_platform.Taskqueue.Broker.Holding.{
  or_right, IsQueuedTask, IsPendingTask, has_delivery, IsHeld, has_retry, retry_task-IsQueuedTask,
  retry_task_lem, first_ends,
}

map_right : {A B C : Type 0} → (B → C) → A ⊎ B → A ⊎ C
map_right f (inl a) = inl a
map_right f (inr b) = inr (f b)

module _ {V : Type 0} where
  -- A delivery stays, or goes to those that have expired.
  waiting-cases :
      (id : String) (now timeout : ℕ) (d : Dict (PendingDelivery V))
      → IsPendingTask id d
      → IsPendingTask id (waiting now timeout d) ⊎ (has_delivery id (expired now timeout d) ≡ true)
  unfolding Dict.lookup waiting expired
  waiting-cases id now timeout [] (x, found, own) = cc
  waiting-cases id now timeout ((k, p) ∷ d) (x, found, own) = elim (Bool-cases (str_eq k id)) [
    | inl same ↦
        let q : p ≡ x = ground (arith, found, same) in
        let mine : p.task.task_id ≡ id = ap (λ y. y.task.task_id) q ∙ own in
        elim (Bool-cases (has_expired now timeout p)) [
          | inl old ↦ inr (rw (old, (eq_iff p.task.task_id id).1 mine) refl)
          | inr young ↦ inl (p, rw (young, same) refl, mine)
        ]
    | inr other ↦
        let later = waiting-cases id now timeout d (x, (rw other at found), own) in
        elim (Bool-cases (has_expired now timeout p)) [
          | inl old ↦ rw old (map_right (or_right (str_eq p.task.task_id id)) later)
          | inr young ↦
              rw young (elim later [ inl (y, f, o) ↦ inl (y, rw other f, o) | inr goes ↦ inr goes ])
        ]
  ]

  pub collect-IsHeld :
      (id : String) (now timeout : ℕ) (ps : List (PendingDelivery V)) (s : System V)
      → s.to_requeue ≡ ps
      → IsHeld id s
      → IsHeld id (collect now timeout ps s)
  unfolding collect
  collect-IsHeld id now timeout (p ∷ ps) s e held = held
  collect-IsHeld id now timeout [] s e (IsHeld.in_queue h) = IsHeld.in_queue h
  collect-IsHeld id now timeout [] s e (IsHeld.in_pending h) =
      elim (waiting-cases id now timeout s.broker.pending h) [
        | inl stays ↦ IsHeld.in_pending stays
        | inr goes ↦ IsHeld.in_return goes
      ]
  collect-IsHeld id now timeout [] s e (IsHeld.in_offer h) = IsHeld.in_offer h
  collect-IsHeld id now timeout [] s e (IsHeld.in_return h) =
      let no : false ≡ true = sym (ap (has_delivery id) e) ∙ h in cc

  pub requeue_next-IsHeld :
      (id : String) (now : ℕ) (ps : List (PendingDelivery V)) (s : System V)
      → s.to_requeue ≡ ps
      → first_ends id ps ≡ false
      → IsHeld id s
      → IsHeld id (requeue_next now ps s)
  unfolding requeue_next requeue_expired
  requeue_next-IsHeld id now [] s e left held = held
  requeue_next-IsHeld id now (p ∷ ps) s e left (IsHeld.in_queue h) =
      IsHeld.in_queue (retry_task-IsQueuedTask id now 0 p.task s.broker.queue h)
  requeue_next-IsHeld id now (p ∷ ps) s e left (IsHeld.in_pending h) = IsHeld.in_pending h
  requeue_next-IsHeld id now (p ∷ ps) s e left (IsHeld.in_offer h) = IsHeld.in_offer h
  requeue_next-IsHeld id now (p ∷ ps) s e left (IsHeld.in_return h) =
      let there : (str_eq p.task.task_id id || has_delivery id ps) ≡ true =
        sym (ap (has_delivery id) e) ∙ h in
      elim (Bool-cases (str_eq p.task.task_id id)) [
        | inl it ↦
            let again : not (has_retry p.task) ≡ false = rw it at left in
            IsHeld.in_queue (
              subst (λ k. IsQueuedTask k (retry_task now 0 p.task s.broker.queue))
                ((eq_iff p.task.task_id id).0 it)
                (retry_task_lem now 0 p.task s.broker.queue (ground (arith, again))))
        | inr not_it ↦ IsHeld.in_return (rw not_it at there)
      ]
