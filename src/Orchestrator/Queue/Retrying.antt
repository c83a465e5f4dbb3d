-- ===== src/Orchestrator/Queue/Retrying.antt =====
-- controller.py: the order in which the work queue gives keys out, and the delays of failed keys.
use container_platform.Prelude.{
  ℕ, zero, suc, ◌+◌, ◌-◌, ◌*◌, ◌^◌, ◌≤◌, min, String, ◌≡◌, refl, sym, ap, ◌∙◌, subst, inl, inr,
  true, false, not, ◌&&◌, none, some, List, [], ◌∷◌, ◌++◌, append-nil, append_assoc, arith, eq_iff,
  leb, if◌then◌else◌, Bool-cases,
}
use container_platform.Prelude.Dict
use container_platform.Prelude.Dict.{Dict, lookup-insert, lookup-remove}
use container_platform.Orchestrator.Queue.{
  has, WorkQueue, enqueue, move_one, move_due, take_first, get_pass, fail, succeed, backoff,
  count_or_zero,
}
use container_platform.Orchestrator.Queue.Sets.{has-set_add, count, IsValid, move_due-IsValid}
use container_platform.Orchestrator.Queue.Waiting.{Call, call, call-IsValid, calls, is_some, waits}
use container_platform.Orchestrator.Queue.Hints.{calls-cons, move_due-processing}

-- After any calls on a valid queue, each queued key stands once in the pending list, no other key does,
-- and no key that is queued is processed.
pub calls-IsValid : (cs : List Call) (q : WorkQueue) → IsValid q → IsValid (calls cs q).0
calls-IsValid [] q h = unfold calls in h
calls-IsValid (c ∷ cs) q h =
    rw (calls-cons c cs q) (calls-IsValid cs (call c q).0 (call-IsValid c q h))

abbrev Appended : List String → List String → Type 0
Appended xs ys = (more : List String) × (ys ≡ xs ++ more)

move_one-pending : (k : String) (q : WorkQueue) → Appended q.pending (move_one k q).pending
move_one-pending k q =
    unfold move_one in
    elim (Bool-cases (not (has k q.queued) && not (has k q.processing))) [
      | inl move ↦ rw move (k ∷ [], unfold enqueue in refl)
      | inr stay ↦ rw stay ([], sym (append-nil q.pending))
    ]

move_due-pending :
    (now : ℕ) (d : Dict ℕ) (q : WorkQueue) → Appended q.pending (move_due now d q).pending
unfolding move_due
move_due-pending now [] q = ([], sym (append-nil q.pending))
move_due-pending now ((k, due) ∷ d) q = elim (Bool-cases (leb due now)) [
  | inl come ↦
      let (a, first) = move_one-pending k q in
      let (b, later) = move_due-pending now d (move_one k q) in
      rw (come, move_due) (a ++ b, later ∙ ap (λ xs. xs ++ b) first ∙ append_assoc q.pending a b)
  | inr later ↦ rw (later, move_due) (move_due-pending now d q)
]

take_first_lem :
    (ps : List String) (q : WorkQueue) (k : String) (rest : List String)
    → ps ≡ k ∷ rest
    → ((take_first ps q).1 ≡ some k) × ((take_first ps q).0.pending ≡ rest)
unfolding take_first
take_first_lem ps q k rest e = rw e (refl, refl)

take_first-free :
    (ps : List String) (q : WorkQueue) (k : String)
    → q.pending ≡ ps
    → IsValid q
    → (take_first ps q).1 ≡ some k
    → (has k q.processing ≡ false) × (has k (take_first ps q).0.processing ≡ true)
unfolding take_first
take_first-free [] q k e h took = cc
take_first-free (j ∷ rest) q k e h took =
    let same : j ≡ k = cc in
    let test = (eq_iff j k).1 same in
    let once : count k (j ∷ rest) ≡ (if has k q.queued then 1 else 0) =
      subst (λ ps. count k ps ≡ (if has k q.queued then 1 else 0)) e (h.once k) in
    let queued : has k q.queued ≡ true = unfold count in ground (arith, once, test) in
    (ground (arith, h.apart k, queued), ground (arith, has-set_add j k q.processing, test))

-- First come, first served: a pass of `get` gives out the first pending key, and puts the keys that
-- are due behind all the others.
pub get_pass-pending :
    (now : ℕ) (q : WorkQueue) (k : String) (rest : List String)
    → q.pending ≡ k ∷ rest
    → ((get_pass now q).1 ≡ some k)
      × ((more : List String) × ((get_pass now q).0.pending ≡ rest ++ more))
get_pass-pending now q k rest e =
    let (more, all) = move_due-pending now q.delayed q in
    let moved = move_due now q.delayed q in
    let first : moved.pending ≡ k ∷ (rest ++ more) = all ∙ ap (λ xs. xs ++ more) e in
    let (took, left) = take_first_lem moved.pending moved k (rest ++ more) first in
    unfold get_pass in (took, (more, left))

-- A key is given out to one worker at a time: on a valid queue `get` never gives out a key that is
-- processed, and marks the one that it gives out as processed.
pub get_pass-free :
    (now : ℕ) (q : WorkQueue) (k : String)
    → IsValid q
    → (get_pass now q).1 ≡ some k
    → (has k q.processing ≡ false) × (has k (get_pass now q).0.processing ≡ true)
get_pass-free now q k h took =
    let moved = move_due now q.delayed q in
    let (free, busy) =
      take_first-free moved.pending moved k refl (move_due-IsValid now q.delayed q h)
        (unfold get_pass in took) in
    (sym (ap (has k) (move_due-processing now q.delayed q)) ∙ free, unfold get_pass in busy)

-- The queue after `n` failures of a key in a row.
unfoldable pub fail_times : ℕ → String → ℕ → ℕ → ℕ → WorkQueue → WorkQueue
unfolding fail
fail_times zero k base most now q = q
fail_times (suc n) k base most now q = (fail k base most now (fail_times n k base most now q)).0

fail_times-count :
    (n : ℕ) (k : String) (base most now : ℕ) (q : WorkQueue)
    → count_or_zero (Dict.lookup k q.failures) ≡ 0
    → count_or_zero (Dict.lookup k (fail_times n k base most now q).failures) ≡ n
unfolding fail_times fail
fail_times-count zero k base most now q none_yet = none_yet
fail_times-count (suc n) k base most now q none_yet =
    let before = fail_times n k base most now q in
    let found =
      lookup-insert k k (count_or_zero (Dict.lookup k before.failures) + 1) before.failures in
    rw (found, (eq_iff k k).1 refl)
      (ap (λ c. c + 1) (fail_times-count n k base most now q none_yet) ∙ omega arith)

fail_lem :
    (k : String) (base most now : ℕ) (q : WorkQueue)
    → ((fail k base most now q).1
        ≡ backoff base most (count_or_zero (Dict.lookup k q.failures) + 1))
      × (Dict.lookup k (fail k base most now q).0.delayed ≡ some (now + (fail k base most now q).1))
unfolding fail
fail_lem k base most now q =
    let wait = backoff base most (count_or_zero (Dict.lookup k q.failures) + 1) in
    (refl, rw (lookup-insert k k (now + wait) q.delayed, (eq_iff k k).1 refl) refl)

backoff_lem : (base most n : ℕ) → backoff base most (n + 1) ≡ min (base * 2 ^ n) most
unfolding backoff
backoff_lem base most n = let less : n + 1 - 1 ≡ n = omega arith in rw less refl

-- Backoff: after a `succeed` and then `n` failures of a key, the next failure waits for the base delay
-- times two to the `n`, but not longer than the limit, and the key is due when that is over.
pub fail-backoff :
    (n : ℕ) (k : String) (base most now : ℕ) (q : WorkQueue)
    → let (after, wait) = fail k base most now (fail_times n k base most now (succeed k q)) in
      (wait ≡ min (base * 2 ^ n) most) × (Dict.lookup k after.delayed ≡ some (now + wait))
fail-backoff n k base most now q =
    let before = fail_times n k base most now (succeed k q) in
    let counted = fail_times-count n k base most now (succeed k q) (forgotten q) in
    let (wait, due) = fail_lem k base most now before in
    (wait ∙ ap (λ c. backoff base most (c + 1)) counted ∙ backoff_lem base most n, due)
  where
    forgotten : (q : WorkQueue) → count_or_zero (Dict.lookup k (succeed k q).failures) ≡ 0
    forgotten q = unfold succeed in rw (lookup-remove k k q.failures, (eq_iff k k).1 refl) refl

-- A hint that `get` drops: a key that is the only delayed one, is due, is processed, and is neither
-- queued nor dirty, waits before a pass of `get` with no pending key, and no longer after it, though
-- the pass gives out nothing.
pub get_pass_forgets :
    (now due : ℕ) (q : WorkQueue) (k : String)
    → q.pending ≡ []
    → q.delayed ≡ (k, due) ∷ []
    → due ≤ now
    → has k q.processing ≡ true
    → has k q.queued ≡ false
    → has k q.dirty ≡ false
    → (waits k q ≡ true) × (waits k (get_pass now q).0 ≡ false) × ((get_pass now q).1 ≡ none)
get_pass_forgets now due q k nothing delayed come busy absent clean =
    let less = record q { delayed = Dict.remove k q.delayed } in
    let gone : Dict.lookup k less.delayed ≡ none =
      rw (lookup-remove k k q.delayed, (eq_iff k k).1 refl) refl in
    let test : leb due now ≡ true = ground (arith, come) in
    let moved : move_due now q.delayed q ≡ less =
      ap (λ d. move_due now d q) delayed
      ∙ (unfold move_due move_one in rw test (rw (absent, busy) refl)) in
    let run : get_pass now q ≡ (less, none) =
      unfold get_pass in
      (ap (λ (r : WorkQueue). take_first r.pending r) moved
        ∙ ap (λ ps. take_first ps less) nothing) in
    let found : Dict.lookup k ((k, due) ∷ []) ≡ some due =
      unfold Dict.lookup in rw ((eq_iff k k).1 refl) refl in
    let before : Dict.lookup k q.delayed ≡ some due = ap (Dict.lookup k) delayed ∙ found in
    (
      unfold waits is_some in ground (arith, before),
      rw run (unfold waits is_some in rw (absent, clean, gone) refl),
      rw run refl,
    )
