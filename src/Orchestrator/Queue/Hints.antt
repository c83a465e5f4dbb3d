-- ===== src/Orchestrator/Queue/Hints.antt =====
-- controller.py: the work queue loses no hint, and gives no key out twice at a time.
use container_platform.Prelude.{
  ℕ, ◌+◌, String, ◌≡◌, refl, sym, ap, ◌∙◌, subst, ◌⊎◌, inl, inr, true, false, not, ◌&&◌, Option,
  none, some, List, [], ◌∷◌, arith, eq_iff, leb, str_eq, Bool-cases,
}
use container_platform.Prelude.Dict
use container_platform.Prelude.Dict.{Dict, lookup-insert, lookup-remove}
use container_platform.Orchestrator.Queue.{
  has, discard, WorkQueue, enqueue, add, delay, add_after, move_one, move_due, take_first, get_pass,
  done, fail, succeed, close,
}
use container_platform.Orchestrator.Queue.Sets.{has-set_add, has-discard}
use container_platform.Orchestrator.Queue.Waiting.{
  Call, adds, delays, passes, finishes, fails, succeeds, closes, call, calls, taken_first, waits,
  add-waits, insert-kept, delay-kept, remove-kept, waits-kept, waits_queued, waits_dirty,
  waits_delayed, enqueue-waits, add-kept,
}

done-kept :
    (k j : String) (again : Option ℕ) (q : WorkQueue)
    → waits k q ≡ true
    → waits k (done j again q) ≡ true
unfolding done enqueue
done-kept k j again q h = elim (Bool-cases (has j q.dirty)) [
  | inl changed ↦ elim (Bool-cases (has j q.queued)) [
    | inl there ↦
        rw (changed, there)
          (waits-kept k q cleaned (waits_queued k _) (dirty_kept there) (waits_delayed k _) h)
    | inr absent ↦
        rw (changed, absent)
          (rw absent at (
            waits-kept k q (enqueue j cleaned)
              (λ x. waits_queued k _ (ground (arith, has-set_add j k q.queued, x)))
              (λ x. elim (Bool-cases (str_eq j k)) [
                | inl same ↦ waits_queued k _ (ground (arith, has-set_add j k q.queued, same))
                | inr other ↦
                    waits_dirty k (enqueue j cleaned) (rw (has-discard j k q.dirty, other) x)
              ])
              (waits_delayed k _) h))
  ]
  | inr same ↦ rw same (unchanged again)
]
  where
    cleaned : WorkQueue
    cleaned = record q {
      processing = discard j q.processing;
      processed = q.processed + 1;
      dirty = discard j q.dirty;
    }

    dirty_kept : has j q.queued ≡ true → has k q.dirty ≡ true → waits k cleaned ≡ true
    dirty_kept there x = elim (Bool-cases (str_eq j k)) [
      | inl same ↦
          waits_queued k cleaned (subst (λ i. has i q.queued ≡ true) ((eq_iff j k).0 same) there)
      | inr other ↦ waits_dirty k cleaned (rw (has-discard j k q.dirty, other) x)
    ]

    unchanged :
        (r : Option ℕ)
        → waits k (elim r [
          | none ↦ record q { processing = discard j q.processing; processed = q.processed + 1 }
          | some due ↦ record q {
            processing = discard j q.processing;
            processed = q.processed + 1;
            delayed = delay j due q.delayed;
          }
        ])
          ≡ true
    unchanged none = waits-kept k q _ (waits_queued k _) (waits_dirty k _) (waits_delayed k _) h
    unchanged (some due) =
        waits-kept k q _ (waits_queued k _) (waits_dirty k _)
          (λ x. waits_delayed k _ (delay-kept k j due q.delayed x)) h

fail-kept :
    (k j : String) (base most now : ℕ) (q : WorkQueue)
    → waits k q ≡ true
    → waits k (fail j base most now q).0 ≡ true
unfolding fail
fail-kept k j base most now q h =
    waits-kept k q _ (waits_queued k _) (waits_dirty k _)
      (λ x. waits_delayed k _ (insert-kept k j _ q.delayed x)) h

move_one-processing : (k : String) (q : WorkQueue) → (move_one k q).processing ≡ q.processing
unfolding move_one enqueue
move_one-processing k q = elim (Bool-cases (not (has k q.queued) && not (has k q.processing))) [
  | inl move ↦ rw move refl
  | inr stay ↦ rw stay refl
]

move_one-kept :
    (k j : String) (q : WorkQueue)
    → has k q.processing ≡ false
    → waits k q ≡ true
    → waits k (move_one j q) ≡ true
move_one-kept k j q free h = elim (Bool-cases (str_eq j k)) [
  | inl same ↦
      subst (λ i. waits k (move_one i q) ≡ true) (sym ((eq_iff j k).0 same))
        (moved (Bool-cases (has k q.queued)))
  | inr other ↦
      unfold move_one in
      elim (Bool-cases (not (has j q.queued) && not (has j q.processing))) [
        | inl move ↦ rw move (enqueue-waits k j less (still other))
        | inr stay ↦ rw stay (still other)
      ]
]
  where
    less : WorkQueue
    less = record q { delayed = Dict.remove j q.delayed }

    still : str_eq j k ≡ false → waits k less ≡ true
    still other =
        waits-kept k q less (waits_queued k _) (waits_dirty k _)
          (λ x. waits_delayed k _ (remove-kept k j q.delayed other x)) h

    moved : (has k q.queued ≡ true) ⊎ (has k q.queued ≡ false) → waits k (move_one k q) ≡ true
    moved (inl there) = unfold move_one in rw (there) (waits_queued k _ there)
    moved (inr absent) =
        unfold move_one enqueue in rw (absent, free) (waits_queued k _ (ground (arith, eq_iff k k)))

pub move_due-processing :
    (now : ℕ) (d : Dict ℕ) (q : WorkQueue) → (move_due now d q).processing ≡ q.processing
unfolding move_due
move_due-processing now [] q = refl
move_due-processing now ((j, due) ∷ d) q = elim (Bool-cases (leb due now)) [
  | inl come ↦
      rw (come, move_due) (move_due-processing now d (move_one j q) ∙ move_one-processing j q)
  | inr later ↦ rw (later, move_due) (move_due-processing now d q)
]

move_due-kept :
    (k : String) (now : ℕ) (d : Dict ℕ) (q : WorkQueue)
    → has k q.processing ≡ false
    → waits k q ≡ true
    → waits k (move_due now d q) ≡ true
unfolding move_due
move_due-kept k now [] q free h = h
move_due-kept k now ((j, due) ∷ d) q free h = elim (Bool-cases (leb due now)) [
  | inl come ↦ rw come (
      move_due-kept k now d (move_one j q) (ap (has k) (move_one-processing j q) ∙ free)
        (move_one-kept k j q free h))
  | inr later ↦ rw later (move_due-kept k now d q free h)
]

take_first-kept :
    (k : String) (ps : List String) (q : WorkQueue)
    → waits k q ≡ true
    → (waits k (take_first ps q).0 ≡ true) ⊎ ((take_first ps q).1 ≡ some k)
unfolding take_first
take_first-kept k [] q h = inl h
take_first-kept k (j ∷ rest) q h = elim (Bool-cases (str_eq j k)) [
  | inl same ↦ inr (ap some ((eq_iff j k).0 same))
  | inr other ↦ inl (
      waits-kept k q _ (λ x. waits_queued k _ (rw (has-discard j k q.queued, other) x))
        (waits_dirty k _) (waits_delayed k _) h)
]

-- One worker: a key is not processed when a pass of `get` is made.
abbrev pub Alone : String → Call → WorkQueue → Type 0
Alone k (adds j) q = Unit
Alone k (delays j due) q = Unit
Alone k (passes now) q = has k q.processing ≡ false
Alone k (finishes j again) q = Unit
Alone k (fails j base most now) q = Unit
Alone k (succeeds j) q = Unit
Alone k closes q = Unit

call-kept :
    (k : String) (c : Call) (q : WorkQueue)
    → Alone k c q
    → waits k q ≡ true
    → (waits k (call c q).0 ≡ true) ⊎ ((call c q).1 ≡ some k)
unfolding call
call-kept k (adds j) q alone h = inl (add-kept k j q h)
call-kept k (delays j due) q alone h = inl (
    waits-kept k q (add_after j due q) (waits_queued k _) (waits_dirty k _)
      (λ x. waits_delayed k _ (delay-kept k j due q.delayed x)) h)
call-kept k (passes now) q alone h =
    unfold get_pass in take_first-kept k _ _ (move_due-kept k now q.delayed q alone h)
call-kept k (finishes j again) q alone h = inl (done-kept k j again q h)
call-kept k (fails j base most now) q alone h = inl (fail-kept k j base most now q h)
call-kept k (succeeds j) q alone h =
    inl (waits-kept k q (succeed j q) (waits_queued k _) (waits_dirty k _) (waits_delayed k _) h)
call-kept k closes q alone h =
    inl (waits-kept k q (close q) (waits_queued k _) (waits_dirty k _) (waits_delayed k _) h)

abbrev pub AloneIn : String → List Call → WorkQueue → Type 0
AloneIn k [] q = Unit
AloneIn k (c ∷ cs) q = Alone k c q × AloneIn k cs (call c q).0

has-taken_first :
    (k : String) (t : Option String) (ks : List String)
    → (has k ks ≡ true) ⊎ (t ≡ some k)
    → has k (taken_first t ks) ≡ true
unfolding taken_first has
has-taken_first k none ks (inl h) = h
has-taken_first k none ks (inr e) = cc
has-taken_first k (some j) ks (inl h) = ground (arith, h)
has-taken_first k (some j) ks (inr e) = let same : j ≡ k = cc in ground (arith, (eq_iff j k).1 same)

pub calls-cons :
    (c : Call) (cs : List Call) (q : WorkQueue)
    → calls (c ∷ cs) q
      ≡ ((calls cs (call c q).0).0, taken_first (call c q).1 (calls cs (call c q).0).1)
unfolding calls
calls-cons c cs q = refl

calls-kept :
    (k : String) (cs : List Call) (q : WorkQueue)
    → AloneIn k cs q
    → waits k q ≡ true
    → (waits k (calls cs q).0 ≡ true) ⊎ (has k (calls cs q).1 ≡ true)
calls-kept k [] q alone h = inl (unfold calls in h)
calls-kept k (c ∷ cs) q alone h =
    let rest = calls cs (call c q).0 in
    let split : (waits k rest.0 ≡ true) ⊎ ((has k rest.1 ≡ true) ⊎ ((call c q).1 ≡ some k)) =
      elim (call-kept k c q alone.0 h) [
        | inl still ↦ elim (calls-kept k cs (call c q).0 alone.1 still) [
          | inl w ↦ inl w
          | inr t ↦ inr (inl t)
        ]
        | inr took ↦ inr (inr took)
      ] in
    rw (calls-cons c cs q)
      (elim split [ inl w ↦ inl w | inr t ↦ inr (has-taken_first k (call c q).1 rest.1 t) ])

-- No hint is lost: after `add` of a key, and any further calls in which `get` is not called while the
-- key is processed, the key has been given out since, or still waits: it is queued, or marked dirty,
-- or delayed.
pub add-served :
    (k : String) (cs : List Call) (q : WorkQueue)
    → AloneIn k cs (add k q)
    → (waits k (calls cs (add k q)).0 ≡ true) ⊎ (has k (calls cs (add k q)).1 ≡ true)
add-served k cs q alone = calls-kept k cs (add k q) alone (add-waits k q)
