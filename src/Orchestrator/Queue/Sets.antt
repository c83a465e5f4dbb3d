-- ===== src/Orchestrator/Queue/Sets.antt =====
-- Membership in the sets of the work queue, and what each method of it keeps.
use container_platform.Prelude.{
  ℕ, suc, ◌+◌, String, ◌≡◌, refl, subst, inl, inr, false, not, ◌&&◌, ◌||◌, Option, none, some, List,
  [], ◌∷◌, ◌++◌, arith, eq_iff, leb, str_eq, if◌then◌else◌, Bool-cases,
}
use container_platform.Prelude.Dict.{Dict}
use container_platform.Orchestrator.Queue.{
  has, set_add, discard, WorkQueue, enqueue, add, delay, move_due, take_first, get_pass, done, fail,
}

pub has-set_add :
    (k j : String) (js : List String) → has j (set_add k js) ≡ (str_eq k j || has j js)
unfolding set_add has
has-set_add k j js = elim (Bool-cases (has k js)) [
  | inl there ↦ rw there (elim (Bool-cases (str_eq k j)) [
    | inl same ↦ rw same (rw ((eq_iff k j).0 same) at there)
    | inr other ↦ rw other refl
  ])
  | inr new ↦ rw new refl
]

pub has-discard :
    (k j : String) (js : List String) → has j (discard k js) ≡ (not (str_eq k j) && has j js)
unfolding has discard
has-discard k j [] = ground arith
has-discard k j (i ∷ is) = ground (arith, eq_iff i k, eq_iff i j, eq_iff k j, has-discard k j is)

-- How often a key stands in the list.
unfoldable pub count : String → List String → ℕ
count k [] = 0
count k (j ∷ js) = if str_eq j k then suc (count k js) else count k js

pub count-append :
    (k j : String) (js : List String)
    → count j (js ++ k ∷ []) ≡ count j js + (if str_eq k j then 1 else 0)
unfolding count
count-append k j [] = ground arith
count-append k j (i ∷ is) = ground (arith, count-append k j is)

-- Each queued key stands once in the list of pending keys, and none that is processed.
pub record IsValid (q : WorkQueue) : Type 0 where
  pub once : (k : String) → count k q.pending ≡ (if has k q.queued then 1 else 0)
  pub apart : (k : String) → (has k q.queued && has k q.processing) ≡ false

pub enqueue-IsValid :
    (k : String) (q : WorkQueue)
    → IsValid q
    → has k q.queued ≡ false
    → has k q.processing ≡ false
    → IsValid (enqueue k q)
unfolding enqueue
enqueue-IsValid k q h absent free = record {
  once = λ j.
      ground (arith, count-append k j q.pending, has-set_add k j q.queued, h.once j, eq_iff k j);
  apart = λ j. ground (arith, has-set_add k j q.queued, h.apart j, eq_iff k j);
}

pub add-IsValid : (k : String) (q : WorkQueue) → IsValid q → IsValid (add k q)
unfolding add enqueue
add-IsValid k q h = elim (Bool-cases (has k q.processing)) [
  | inl busy ↦ rw busy (record { once = h.once; apart = h.apart })
  | inr free ↦ elim (Bool-cases (has k q.queued)) [
    | inl there ↦ rw (free, there) (record { once = h.once; apart = h.apart })
    | inr absent ↦
        rw (free, absent)
          (rw absent at (
            enqueue-IsValid k (record q { added = q.added + 1 })
              (record { once = h.once; apart = h.apart }) absent free))
  ]
]

requeue :
    (k : String) (q : WorkQueue)
    → IsValid q
    → IsValid (if not (has k q.queued) && not (has k q.processing) then enqueue k q else q)
requeue k q h = elim (Bool-cases (has k q.processing)) [
  | inl busy ↦ elim (Bool-cases (has k q.queued)) [
    | inl there ↦ rw (busy, there) h
    | inr absent ↦ rw (busy, absent) h
  ]
  | inr free ↦ elim (Bool-cases (has k q.queued)) [
    | inl there ↦ rw (free, there) h
    | inr absent ↦ rw (free, absent) (enqueue-IsValid k q h absent free)
  ]
]

pub move_due-IsValid :
    (now : ℕ) (d : Dict ℕ) (q : WorkQueue) → IsValid q → IsValid (move_due now d q)
unfolding move_due
move_due-IsValid now [] q h = h
move_due-IsValid now ((k, due) ∷ d) q h = elim (Bool-cases (leb due now)) [
  | inl come ↦
      rw come (move_due-IsValid now d _ (requeue k _ (record { once = h.once; apart = h.apart })))
  | inr later ↦ rw later (move_due-IsValid now d q h)
]

pub take_first-IsValid :
    (ps : List String) (q : WorkQueue) → q.pending ≡ ps → IsValid q → IsValid (take_first ps q).0
unfolding take_first count
take_first-IsValid [] q e h = h
take_first-IsValid (k ∷ rest) q e h = record {
  once = λ j.
      let before : count j (k ∷ rest) ≡ (if has j q.queued then 1 else 0) =
        subst (λ ps. count j ps ≡ (if has j q.queued then 1 else 0)) e (h.once j) in
      ground (arith, has-discard k j q.queued, before);
  apart = λ j.
      ground (arith, has-discard k j q.queued, has-set_add k j q.processing, h.apart j, eq_iff k j);
}

pub get_pass-IsValid : (now : ℕ) (q : WorkQueue) → IsValid q → IsValid (get_pass now q).0
unfolding get_pass
get_pass-IsValid now q h = take_first-IsValid _ _ refl (move_due-IsValid now q.delayed q h)

-- A key that is no longer processed.
release :
    (k : String) (q : WorkQueue)
    → IsValid q
    → (j : String) → (has j q.queued && has j (discard k q.processing)) ≡ false
release k q h j = ground (arith, has-discard k j q.processing, h.apart j)

pub done-IsValid :
    (k : String) (requeue : Option ℕ) (q : WorkQueue) → IsValid q → IsValid (done k requeue q)
unfolding done enqueue
done-IsValid k again q h =
    let freed : has k (discard k q.processing) ≡ false =
      ground (arith, has-discard k k q.processing, eq_iff k k) in
    let cleaned = record q {
      processing = discard k q.processing;
      processed = q.processed + 1;
      dirty = discard k q.dirty;
    } in
    let clean : IsValid cleaned = record { once = h.once; apart = release k q h } in
    elim (Bool-cases (has k q.dirty)) [
      | inl changed ↦ elim (Bool-cases (has k q.queued)) [
        | inl there ↦ rw (changed, there) clean
        | inr absent ↦
            rw (changed, absent) (rw absent at (enqueue-IsValid k cleaned clean absent freed))
      ]
      | inr same ↦ rw same (unchanged again)
    ]
  where
    unchanged :
        (r : Option ℕ)
        → IsValid (elim r [
          | none ↦ record q { processing = discard k q.processing; processed = q.processed + 1 }
          | some due ↦ record q {
            processing = discard k q.processing;
            processed = q.processed + 1;
            delayed = delay k due q.delayed;
          }
        ])
    unchanged none = record { once = h.once; apart = release k q h }
    unchanged (some due) = record { once = h.once; apart = release k q h }

pub fail-IsValid :
    (k : String) (base most now : ℕ) (q : WorkQueue)
    → IsValid q
    → IsValid (fail k base most now q).0
unfolding fail
fail-IsValid k base most now q h = record { once = h.once; apart = release k q h }
