-- ===== src/Orchestrator/Store.antt =====
-- store.py: the in-memory store. A method returns the store and its result; the store is there
-- beside an error too. A watcher is its handler, named by a number, with the events that it was
-- given: a handler that raises is passed over, and has been given the event.
pub mod Machine
pub mod History
pub mod Writes
pub mod Updating
pub mod Versions
pub mod Replicas
pub mod Retry
use container_platform.Prelude.Dict
use container_platform.Prelude.Dict.{Dict}
use container_platform.Prelude.{
  ℕ, ◌+◌, ◌-◌, String, Bool, true, false, ◌&&◌, ◌||◌, Option, none, some, List, [], ◌∷◌, ◌++◌, map,
  length, drop, ltb, ◌==◌, str_eq, if◌then◌else◌,
}
use container_platform.Orchestrator.Objects.{
  Meta, Object, StoreError, conflict, resync, not_found, already_exists, Result, ok, err, key,
  matches,
}

pub data EventType : Type 0 where
  added modified deleted : EventType

pub record Event (V : Type 0) : Type 0 where
  pub type : EventType
  pub object : Object V
  pub revision : ℕ

pub record Watcher (V : Type 0) : Type 0 where
  pub handler : ℕ
  pub seen : List (Event V)

pub record MemoryStore (V : Type 0) : Type 0 where
  pub objects : Dict (Object V)
  pub revision : ℕ
  pub history : List (Event V)
  pub history_limit : ℕ
  pub watchers : List (Watcher V)

module _ {V : Type 0} where
  unfoldable pub new_store : ℕ → MemoryStore V
  new_store limit = record {
    objects = [];
    revision = 0;
    history = [];
    history_limit = limit;
    watchers = [];
  }

  -- The events that stay when the history is longer than the limit.
  unfoldable pub bounded : ℕ → List (Event V) → List (Event V)
  bounded limit es = if ltb limit (length es) then drop (length es - limit) es else es

  unfoldable pub deliver : Event V → List (Watcher V) → List (Watcher V)
  deliver e [] = []
  deliver e (w ∷ ws) = record w { seen = w.seen ++ e ∷ [] } ∷ deliver e ws

  unfoldable pub emit : Event V → MemoryStore V → MemoryStore V
  unfolding bounded deliver
  emit e s = record s {
    history = bounded s.history_limit (s.history ++ e ∷ []);
    watchers = deliver e s.watchers;
  }

  unfoldable pub stamp_version : ℕ → Object V → Object V
  stamp_version rev o = record o { meta = record o.meta { resource_version = rev } }

  unfoldable pub stamp_created : ℕ → Object V → Object V
  stamp_created now o =
      if o.meta.created_at == 0 then record o { meta = record o.meta { created_at = now } } else o

  stamp_deleted : ℕ → Object V → Object V
  stamp_deleted now o = record o { meta = record o.meta { deleted_at = now } }

  -- A write of an object under a new revision, with its event.
  unfoldable pub put : EventType → Object V → MemoryStore V → MemoryStore V
  unfolding emit
  put type o s =
      emit (record { type = type; object = o; revision = s.revision + 1 })
        (record s { objects = Dict.insert (key o) o s.objects; revision = s.revision + 1 })

  unfoldable pub create_absent : ℕ → Object V → MemoryStore V → MemoryStore V × Result (Object V)
  unfolding put stamp_version stamp_created
  create_absent now o s =
      let stored = stamp_created now (stamp_version (s.revision + 1) o) in
      (put added stored s, ok stored)

  unfoldable pub create : ℕ → Object V → MemoryStore V → MemoryStore V × Result (Object V)
  unfolding create_absent
  create now o s = elim (Dict.lookup (key o) s.objects) [
    | some other ↦ (s, err (already_exists (key o)))
    | none ↦ create_absent now o s
  ]

  unfoldable pub next_generation : (V → V → Bool) → Object V → Object V → ℕ
  next_generation spec_eq current o =
      current.meta.generation + (if spec_eq o.spec current.spec then 0 else 1)

  unfoldable pub replacement : (V → V → Bool) → ℕ → Object V → Object V → Object V
  unfolding next_generation
  replacement spec_eq rev current o = record o {
    meta = record o.meta { generation = next_generation spec_eq current o; resource_version = rev };
  }

  unfoldable pub update_present :
      (V → V → Bool) → Object V → Object V → MemoryStore V → MemoryStore V × Result (Object V)
  unfolding put replacement
  update_present spec_eq current o s =
      if o.meta.resource_version == current.meta.resource_version
      then (
        put modified (replacement spec_eq (s.revision + 1) current o) s,
        ok (replacement spec_eq (s.revision + 1) current o),
      )
      else (s, err (conflict (key o)))

  unfoldable pub update :
      (V → V → Bool) → Object V → MemoryStore V → MemoryStore V × Result (Object V)
  unfolding update_present
  update spec_eq o s = elim (Dict.lookup (key o) s.objects) [
    | none ↦ (s, err (not_found (key o)))
    | some current ↦ update_present spec_eq current o s
  ]

  delete_present : ℕ → String → Object V → MemoryStore V → MemoryStore V
  unfolding emit stamp_deleted
  delete_present now k existing s =
      emit
        (record { type = deleted; object = stamp_deleted now existing; revision = s.revision + 1 })
        (record s { objects = Dict.remove k s.objects; revision = s.revision + 1 })

  unfoldable pub delete : ℕ → String → MemoryStore V → MemoryStore V × Result Unit
  unfolding delete_present
  delete now k s = elim (Dict.lookup k s.objects) [
    | none ↦ (s, err (not_found k))
    | some existing ↦ (delete_present now k existing s, ok tt)
  ]

  unfoldable pub get : String → MemoryStore V → Result (Object V)
  get k s = elim (Dict.lookup k s.objects) [ none ↦ err (not_found k) | some o ↦ ok o ]

  -- The events above a revision.
  unfoldable pub newer : ℕ → List (Event V) → List (Event V)
  newer r [] = []
  newer r (e ∷ es) = if ltb r e.revision then e ∷ newer r es else newer r es

  unfoldable pub events_since : ℕ → MemoryStore V → Result (List (Event V))
  events_since r s = elim s.history [
    | [] ↦ ok []
    | oldest ∷ rest ↦
        if ltb r (oldest.revision - 1)
        then err (resync r oldest.revision)
        else ok (newer r s.history)
  ]

  unfoldable pub watch : ℕ → MemoryStore V → MemoryStore V
  watch h s = record s { watchers = s.watchers ++ record { handler = h; seen = [] } ∷ [] }

  without_handler : ℕ → List (Watcher V) → List (Watcher V)
  without_handler h [] = []
  without_handler h (w ∷ ws) = if w.handler == h then ws else w ∷ without_handler h ws

  -- The function that `watch` returns.
  unfoldable pub cancel : ℕ → MemoryStore V → MemoryStore V
  unfolding without_handler
  cancel h s = record s { watchers = without_handler h s.watchers }
