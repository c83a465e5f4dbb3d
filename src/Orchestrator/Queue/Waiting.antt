-- ===== src/Orchestrator/Queue/Waiting.antt =====
-- controller.py: the calls of the work queue, and the keys that wait in it.
use container_platform.Prelude.{
  ℕ, ◌+◌, min, String, ◌≡◌, refl, ◌⊎◌, inl, inr, Bool, true, false, ◌||◌, Option, none, some, List,
  [], ◌∷◌, arith, eq_iff, str_eq, Bool-cases, Option-cases,
}
use container_platform.Prelude.Dict
use container_platform.Prelude.Dict.{Dict, lookup-insert, lookup-remove}
use container_platform.Orchestrator.Queue.{
  has, WorkQueue, enqueue, add, delay, add_after, get_pass, done, fail, succeed, close,
}
use container_platform.Orchestrator.Queue.Sets.{
  has-set_add, IsValid, add-IsValid, get_pass-IsValid, done-IsValid, fail-IsValid,
}

-- A call of a method of the queue.
pub data Call : Type 0 where
  adds : String → Call
  delays : String → ℕ → Call
  passes : ℕ → Call
  finishes : String → Option ℕ → Call
  fails : String → ℕ → ℕ → ℕ → Call
  succeeds : String → Call
  closes : Call

-- The queue after a call, and the key that it gives out.
unfoldable pub call : Call → WorkQueue → WorkQueue × Option String
unfolding add add_after get_pass done fail succeed close
call (adds k) q = (add k q, none)
call (delays k due) q = (add_after k due q, none)
call (passes now) q = get_pass now q
call (finishes k again) q = (done k again q, none)
call (fails k base most now) q = ((fail k base most now q).0, none)
call (succeeds k) q = (succeed k q, none)
call closes q = (close q, none)

pub call-IsValid : (c : Call) (q : WorkQueue) → IsValid q → IsValid (call c q).0
unfolding call
call-IsValid (adds k) q h = add-IsValid k q h
call-IsValid (delays k due) q h = record { once = h.once; apart = h.apart }
call-IsValid (passes now) q h = get_pass-IsValid now q h
call-IsValid (finishes k again) q h = done-IsValid k again q h
call-IsValid (fails k base most now) q h = fail-IsValid k base most now q h
call-IsValid (succeeds k) q h = record { once = h.once; apart = h.apart }
call-IsValid closes q h = record { once = h.once; apart = h.apart }

unfoldable pub taken_first : Option String → List String → List String
taken_first none ks = ks
taken_first (some k) ks = k ∷ ks

-- The queue after calls, and the keys that they give out.
unfoldable pub calls : List Call → WorkQueue → WorkQueue × List String
unfolding call taken_first
calls [] q = (q, [])
calls (c ∷ cs) q =
    let (r, taken) = call c q in let rest = calls cs r in (rest.0, taken_first taken rest.1)

unfoldable pub is_some : Option ℕ → Bool
is_some none = false
is_some (some n) = true

-- A key that will be given out: it is queued, or marked for when its pass ends, or delayed.
unfoldable pub waits : String → WorkQueue → Bool
unfolding has is_some
waits k q = has k q.queued || (has k q.dirty || is_some (Dict.lookup k q.delayed))

pub add-waits : (k : String) (q : WorkQueue) → waits k (add k q) ≡ true
unfolding waits add enqueue
add-waits k q = elim (Bool-cases (has k q.processing)) [
  | inl busy ↦ rw busy (ground (arith, has-set_add k k q.dirty, eq_iff k k))
  | inr free ↦ elim (Bool-cases (has k q.queued)) [
    | inl there ↦ rw (free, there) (ground (arith, there))
    | inr absent ↦ rw (free, absent) (ground (arith, eq_iff k k))
  ]
]

pub insert-kept :
    (k j : String) (n : ℕ) (d : Dict ℕ)
    → is_some (Dict.lookup k d) ≡ true
    → is_some (Dict.lookup k (Dict.insert j n d)) ≡ true
unfolding is_some
insert-kept k j n d h = elim (Bool-cases (str_eq j k)) [
  | inl same ↦ rw (lookup-insert j k n d, same) refl
  | inr other ↦ rw (lookup-insert j k n d, other) h
]

pub delay-kept :
    (k j : String) (due : ℕ) (d : Dict ℕ)
    → is_some (Dict.lookup k d) ≡ true
    → is_some (Dict.lookup k (delay j due d)) ≡ true
unfolding delay
delay-kept k j due d h = elim (Option-cases (Dict.lookup j d)) [
  | inl absent ↦ rw (absent, delay) (insert-kept k j due d h)
  | inr (n, there) ↦ rw (there, delay) (insert-kept k j (min n due) d h)
]

pub remove-kept :
    (k j : String) (d : Dict ℕ)
    → str_eq j k ≡ false
    → is_some (Dict.lookup k d) ≡ true
    → is_some (Dict.lookup k (Dict.remove j d)) ≡ true
remove-kept k j d other h = rw (lookup-remove j k d, other) h

-- `||` of three, by which of them holds.
pub waits-cases :
    (k : String) (q : WorkQueue)
    → waits k q ≡ true
    → (has k q.queued ≡ true)
      ⊎ ((has k q.dirty ≡ true) ⊎ (is_some (Dict.lookup k q.delayed) ≡ true))
unfolding waits
waits-cases k q h = elim (Bool-cases (has k q.queued)) [
  | inl there ↦ inl there
  | inr absent ↦ elim (Bool-cases (has k q.dirty)) [
    | inl there ↦ inr (inl there)
    | inr clean ↦ inr (inr (rw (absent, clean) at h))
  ]
]

pub waits-kept :
    (k : String) (q r : WorkQueue)
    → (has k q.queued ≡ true → waits k r ≡ true)
    → (has k q.dirty ≡ true → waits k r ≡ true)
    → (is_some (Dict.lookup k q.delayed) ≡ true → waits k r ≡ true)
    → waits k q ≡ true
    → waits k r ≡ true
waits-kept k q r a b c h = elim (waits-cases k q h) [
  | inl x ↦ a x
  | inr (inl x) ↦ b x
  | inr (inr x) ↦ c x
]

pub waits_queued : (k : String) (q : WorkQueue) → has k q.queued ≡ true → waits k q ≡ true
unfolding waits
waits_queued k q h = rw h refl

pub waits_dirty : (k : String) (q : WorkQueue) → has k q.dirty ≡ true → waits k q ≡ true
unfolding waits
waits_dirty k q h = ground (arith, h)

pub waits_delayed :
    (k : String) (q : WorkQueue) → is_some (Dict.lookup k q.delayed) ≡ true → waits k q ≡ true
unfolding waits
waits_delayed k q h = ground (arith, h)

pub enqueue-waits : (k j : String) (q : WorkQueue) → waits k q ≡ true → waits k (enqueue j q) ≡ true
unfolding enqueue
enqueue-waits k j q h =
    waits-kept k q (enqueue j q)
      (λ x. waits_queued k _ (ground (arith, has-set_add j k q.queued, x))) (λ x. waits_dirty k _ x)
      (λ x. waits_delayed k _ x) h

pub add-kept : (k j : String) (q : WorkQueue) → waits k q ≡ true → waits k (add j q) ≡ true
unfolding add enqueue
add-kept k j q h = elim (Bool-cases (has j q.processing)) [
  | inl busy ↦ rw busy (
      waits-kept k q _ (waits_queued k _)
        (λ x. waits_dirty k _ (ground (arith, has-set_add j k q.dirty, x))) (waits_delayed k _) h)
  | inr free ↦ elim (Bool-cases (has j q.queued)) [
    | inl there ↦
        rw (free, there)
          (waits-kept k q _ (waits_queued k _) (waits_dirty k _) (waits_delayed k _) h)
    | inr absent ↦
        rw (free, absent)
          (rw absent at (
            enqueue-waits k j (record q { added = q.added + 1 })
              (waits-kept k q _ (waits_queued k _) (waits_dirty k _) (waits_delayed k _) h)))
  ]
]
