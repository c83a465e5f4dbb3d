-- ===== src/Taskqueue/Queue/Ordering.antt =====
-- broker/queue.py: the order of the entries of a heap.
use container_platform.Prelude.{
  ◌+◌, ◌≡◌, refl, inl, inr, true, false, List, [], ◌∷◌, arith, length, All, Bool-cases, All-map,
}
use container_platform.Taskqueue.Queue.{SortKey, QueueEntry, key_lt, heap_push}

-- The first key leaves no later than the second.
abbrev pub IsBefore : SortKey → SortKey → Type 0
IsBefore a b = key_lt b a ≡ false

pub IsBefore-trans : (a b c : SortKey) → IsBefore a b → IsBefore b c → IsBefore a c
unfolding key_lt
IsBefore-trans a b c p q = ground arith

pub IsBefore-lt : (a b : SortKey) → key_lt a b ≡ true → IsBefore a b
unfolding key_lt
IsBefore-lt a b p = ground arith

module _ {V : Type 0} where
  abbrev pub IsOrdered : List (QueueEntry V) → Type 0
  IsOrdered [] = Unit
  IsOrdered (x ∷ xs) = All (λ y. IsBefore x.sort_key y.sort_key) xs × IsOrdered xs

  pub heap_push-All :
      (P : QueueEntry V → Type 0) (e : QueueEntry V) (h : List (QueueEntry V))
      → P e
      → All P h
      → All P (heap_push e h)
  unfolding heap_push
  heap_push-All P e [] p all = (p, tt)
  heap_push-All P e (x ∷ xs) p all = elim (Bool-cases (key_lt e.sort_key x.sort_key)) [
    | inl less ↦ rw less (p, all)
    | inr more ↦ rw more (all.0, heap_push-All P e xs p all.1)
  ]

  pub heap_push-IsOrdered :
      (e : QueueEntry V) (h : List (QueueEntry V)) → IsOrdered h → IsOrdered (heap_push e h)
  unfolding heap_push
  heap_push-IsOrdered e [] o = (tt, tt)
  heap_push-IsOrdered e (x ∷ xs) o = elim (Bool-cases (key_lt e.sort_key x.sort_key)) [
    | inl less ↦
        let first = IsBefore-lt e.sort_key x.sort_key less in
        rw less (
          (
            first,
            All-map (λ (y : QueueEntry V). IsBefore x.sort_key y.sort_key)
                (λ (y : QueueEntry V). IsBefore e.sort_key y.sort_key)
                (λ y. IsBefore-trans e.sort_key x.sort_key y.sort_key first) xs o.0,
          ),
          o,
        )
    | inr more ↦ rw more (
      heap_push-All (λ y. IsBefore x.sort_key y.sort_key) e xs more o.0,
      heap_push-IsOrdered e xs o.1,
    )
  ]

  pub length-heap_push :
      (e : QueueEntry V) (h : List (QueueEntry V)) → length (heap_push e h) ≡ length h + 1
  unfolding heap_push
  length-heap_push e [] = refl
  length-heap_push e (x ∷ xs) = elim (Bool-cases (key_lt e.sort_key x.sort_key)) [
    | inl less ↦ rw less (omega arith)
    | inr more ↦ rw more (omega (arith, length-heap_push e xs))
  ]
