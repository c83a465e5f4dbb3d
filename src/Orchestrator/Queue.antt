-- ===== src/Orchestrator/Queue.antt =====
-- controller.py: the work queue of a controller. A set is a list that `has` asks; a time is a natural
-- number that the caller reads from the clock, and each method is one step under its lock. `get` waits
-- between its passes, and then other steps happen.
pub mod Sets
pub mod Waiting
pub mod Hints
pub mod Retrying
use container_platform.Prelude.Dict
use container_platform.Prelude.Dict.{Dict}
use container_platform.Prelude.{
  ℕ, zero, suc, ◌+◌, ◌*◌, ◌-◌, ◌^◌, min, String, Bool, true, false, not, ◌&&◌, ◌||◌, Option, none,
  some, List, [], ◌∷◌, ◌++◌, length, leb, ◌==◌, str_eq, if◌then◌else◌,
}

-- k in set
unfoldable pub has : String → List String → Bool
has k [] = false
has k (j ∷ js) = str_eq j k || has k js

-- set.add(k)
unfoldable pub set_add : String → List String → List String
unfolding has
set_add k js = if has k js then js else k ∷ js

-- set.discard(k)
unfoldable pub discard : String → List String → List String
discard k [] = []
discard k (j ∷ js) = let rest = discard k js in if str_eq j k then rest else j ∷ rest

pub record WorkQueue : Type 0 where
  pub pending : List String
  pub queued : List String
  pub processing : List String
  pub dirty : List String
  pub delayed : Dict ℕ
  pub failures : Dict ℕ
  pub closed : Bool
  pub added : ℕ
  pub deduplicated : ℕ
  pub processed : ℕ
  pub retries : ℕ

abbrev pub new_queue : WorkQueue
new_queue = record {
  pending = [];
  queued = [];
  processing = [];
  dirty = [];
  delayed = [];
  failures = [];
  closed = false;
  added = 0;
  deduplicated = 0;
  processed = 0;
  retries = 0;
}

-- `self._queued.add(key)` and `self._pending.append(key)`
unfoldable pub enqueue : String → WorkQueue → WorkQueue
unfolding set_add
enqueue k q = record q { queued = set_add k q.queued; pending = q.pending ++ k ∷ [] }

unfoldable pub add : String → WorkQueue → WorkQueue
unfolding has set_add enqueue
add k r =
    let q = record r { added = r.added + 1 } in
    if has k q.processing
    then record q { dirty = set_add k q.dirty }
    else if has k q.queued
    then record q { deduplicated = q.deduplicated + 1 }
    else enqueue k q

-- `d[key] = min(d.get(key, due), due)`
unfoldable pub delay : String → ℕ → Dict ℕ → Dict ℕ
delay k due d = elim (Dict.lookup k d) [
  | none ↦ Dict.insert k due d
  | some other ↦ Dict.insert k (min other due) d
]

unfoldable pub add_after : String → ℕ → WorkQueue → WorkQueue
unfolding delay
add_after k due q = record q { delayed = delay k due q.delayed }

unfoldable pub move_one : String → WorkQueue → WorkQueue
unfolding has enqueue
move_one k q =
    let r = record q { delayed = Dict.remove k q.delayed } in
    if not (has k r.queued) && not (has k r.processing) then enqueue k r else r

-- The loop over `list(self._delayed.items())`.
unfoldable pub move_due : ℕ → Dict ℕ → WorkQueue → WorkQueue
unfolding move_one
move_due now [] q = q
move_due now ((k, due) ∷ d) q = move_due now d (if leb due now then move_one k q else q)

-- `self._pending.pop(0)` and what goes with it.
unfoldable pub take_first : List String → WorkQueue → WorkQueue × Option String
unfolding discard set_add
take_first [] q = (q, none)
take_first (k ∷ rest) q = (
  record q { pending = rest; queued = discard k q.queued; processing = set_add k q.processing },
  some k,
)

-- One pass of the loop of `get`. It ends the loop if it has a key, or if `is_over`.
unfoldable pub get_pass : ℕ → WorkQueue → WorkQueue × Option String
unfolding move_due take_first
get_pass now q = let r = move_due now q.delayed q in take_first r.pending r

pub is_over : ℕ → ℕ → WorkQueue → Bool
is_over deadline now q = q.closed || leb deadline now

unfoldable pub done : String → Option ℕ → WorkQueue → WorkQueue
unfolding has discard enqueue delay
done k requeue r =
    let q = record r { processing = discard k r.processing; processed = r.processed + 1 } in
    let clean = record q { dirty = discard k q.dirty } in
    if has k q.dirty
    then (if has k q.queued then clean else enqueue k clean)
    else elim requeue [ none ↦ q | some due ↦ record q { delayed = delay k due q.delayed } ]

abbrev count_or_zero : Option ℕ → ℕ
count_or_zero none = 0
count_or_zero (some n) = n

unfoldable pub backoff : ℕ → ℕ → ℕ → ℕ
backoff base most count = min (base * 2 ^ (count - 1)) most

-- The queue and the delay that `fail` returns.
unfoldable pub fail : String → ℕ → ℕ → ℕ → WorkQueue → WorkQueue × ℕ
unfolding discard backoff
fail k base most now q =
    let count = count_or_zero (Dict.lookup k q.failures) + 1 in
    let wait = backoff base most count in
    (
      record q {
        processing = discard k q.processing;
        retries = q.retries + 1;
        failures = Dict.insert k count q.failures;
        delayed = Dict.insert k (now + wait) q.delayed;
      },
      wait,
    )

unfoldable pub succeed : String → WorkQueue → WorkQueue
succeed k q = record q { failures = Dict.remove k q.failures }

unfoldable pub close : WorkQueue → WorkQueue
close q = record q { closed = true }

unfoldable pub size : WorkQueue → ℕ
size q = length q.pending + length q.delayed
