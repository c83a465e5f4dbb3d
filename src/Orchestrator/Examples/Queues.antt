-- ===== src/Orchestrator/Examples/Queues.antt =====
-- A work queue whose key changes again while it is processed, and the theorems about queues at it.
use container_platform.Prelude.{String, ◌≡◌, refl, ◌⊎◌, true, none, List, [], ◌∷◌}
use container_platform.Prelude.Dict
use container_platform.Orchestrator.Queue.{
  has, set_add, discard, WorkQueue, new_queue, enqueue, add, delay, add_after, move_one, move_due,
  take_first, get_pass, done, fail, succeed, close, backoff,
}
use container_platform.Orchestrator.Queue.Sets.{IsValid, count}
use container_platform.Orchestrator.Queue.Waiting.{
  Call, adds, passes, finishes, call, calls, taken_first, is_some, waits,
}
use container_platform.Orchestrator.Queue.Hints.{AloneIn, add-served}
use container_platform.Orchestrator.Queue.Retrying.{calls-IsValid}

abbrev web : String
web = "Deployment/default/web"

program : Unit {0}
unfolding has set_add discard enqueue add delay add_after move_one move_due take_first get_pass done
    fail succeed close backoff count call calls taken_first is_some waits Dict.lookup Dict.insert
    Dict.remove
program = tt

-- Three changes while the key is queued, and one while it is processed, cost two passes.
abbrev burst : List Call
burst =
    adds web
    ∷ adds web
    ∷ adds web
    ∷ passes 1
    ∷ adds web
    ∷ finishes web none
    ∷ passes 2
    ∷ finishes web none
    ∷ passes 3
    ∷ []

burst_taken : (calls burst new_queue).1 ≡ web ∷ web ∷ []
unfolding program
burst_taken = refl

new_queue-IsValid : IsValid new_queue
unfolding has count
new_queue-IsValid = record { once = λ k. refl; apart = λ k. refl }

calls-IsValid_example : IsValid (calls burst new_queue).0
calls-IsValid_example = calls-IsValid burst new_queue new_queue-IsValid

abbrev busy : WorkQueue
busy = record new_queue { processing = web ∷ []; delayed = (web, 4) ∷ [] }

alone : AloneIn web (finishes web none ∷ passes 2 ∷ []) (add web busy)
unfolding program
alone = (tt, (refl, tt))

add-served_example :
    (waits web (calls (finishes web none ∷ passes 2 ∷ []) (add web busy)).0 ≡ true)
    ⊎ (has web (calls (finishes web none ∷ passes 2 ∷ []) (add web busy)).1 ≡ true)
add-served_example = add-served web (finishes web none ∷ passes 2 ∷ []) busy alone

abbrev two : WorkQueue
two = record new_queue {
  pending = web ∷ "b" ∷ [];
  queued = "b" ∷ web ∷ [];
  delayed = ("c", 4) ∷ [];
}

abbrev one : WorkQueue
one = (calls (adds web ∷ []) new_queue).0
