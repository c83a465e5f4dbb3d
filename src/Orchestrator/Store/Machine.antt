-- ===== src/Orchestrator/Store/Machine.antt =====
-- store.py: the state machine that every Raft node applies, and the reads of `RaftStore`. A command
-- carries what `Object.deserialise` makes of its text, `none` if that raises; a command of another
-- verb, or of fewer parts, is `other`. A result that says yes carries the object instead of its text.
use container_platform.Prelude.Dict
use container_platform.Prelude.Dict.{Dict}
use container_platform.Prelude.{
  ℕ, ◌+◌, String, Bool, Option, none, some, List, [], ◌∷◌, ◌++◌, ◌==◌, if◌then◌else◌,
}
use container_platform.Orchestrator.Objects.{
  Object, StoreError, conflict, not_found, already_exists, Result, ok, err, key,
}
use container_platform.Orchestrator.Store.{
  Event, EventType, added, modified, deleted, Watcher, bounded, deliver, stamp_version, replacement,
  newer,
}

pub data Outcome (V : Type 0) : Type 0 where
  stored : Object V → Outcome V
  removed : Outcome V
  failed : StoreError → Outcome V
  raised : Outcome V

pub data Command (V : Type 0) : Type 0 where
  create : Option (Object V) → Command V
  update : Option (Object V) → Command V
  delete : String → Command V
  other : Command V

pub record ObjectStateMachine (V : Type 0) : Type 0 where
  pub objects : Dict (Object V)
  pub revision : ℕ
  pub history : List (Event V)
  pub results : Dict (Outcome V)
  pub listeners : List (Watcher V)

abbrev pub history_limit : ℕ
history_limit = 4096

module _ {V : Type 0} where
  abbrev pub new_machine : ObjectStateMachine V
  new_machine = record { objects = []; revision = 0; history = []; results = []; listeners = [] }

  -- `_record`
  unfoldable pub record_event : Event V → ObjectStateMachine V → ObjectStateMachine V
  record_event e m = record m {
    history = bounded history_limit (m.history ++ e ∷ []);
    listeners = deliver e m.listeners;
  }

  unfoldable pub put : EventType → Object V → ObjectStateMachine V → ObjectStateMachine V
  unfolding record_event
  put type o m =
      record_event (record { type = type; object = o; revision = m.revision + 1 })
        (record m { objects = Dict.insert (key o) o m.objects; revision = m.revision + 1 })

  unfoldable pub do_create : Object V → ObjectStateMachine V → ObjectStateMachine V × Outcome V
  do_create o m = elim (Dict.lookup (key o) m.objects) [
    | some there ↦ (m, failed (already_exists (key o)))
    | none ↦
        (put added (stamp_version (m.revision + 1) o) m, stored (stamp_version (m.revision + 1) o))
  ]

  unfoldable pub update_present :
      (V → V → Bool) → Object V → Object V → ObjectStateMachine V → ObjectStateMachine V × Outcome V
  update_present spec_eq current o m =
      if o.meta.resource_version == current.meta.resource_version
      then (
        put modified (replacement spec_eq (m.revision + 1) current o) m,
        stored (replacement spec_eq (m.revision + 1) current o),
      )
      else (m, failed (conflict (key o)))

  unfoldable pub do_update :
      (V → V → Bool) → Object V → ObjectStateMachine V → ObjectStateMachine V × Outcome V
  unfolding update_present
  do_update spec_eq o m = elim (Dict.lookup (key o) m.objects) [
    | none ↦ (m, failed (not_found (key o)))
    | some current ↦ update_present spec_eq current o m
  ]

  unfoldable pub delete_present : String → Object V → ObjectStateMachine V → ObjectStateMachine V
  unfolding record_event
  delete_present k existing m =
      record_event (record { type = deleted; object = existing; revision = m.revision + 1 })
        (record m { objects = Dict.remove k m.objects; revision = m.revision + 1 })

  unfoldable pub do_delete : String → ObjectStateMachine V → ObjectStateMachine V × Outcome V
  unfolding delete_present
  do_delete k m = elim (Dict.lookup k m.objects) [
    | none ↦ (m, failed (not_found k))
    | some existing ↦ (delete_present k existing m, removed)
  ]

  -- `self._results[request_id] = …`
  unfoldable pub set_result : String → ObjectStateMachine V × Outcome V → ObjectStateMachine V
  set_result request (m, r) = record m { results = Dict.insert request r m.results }

  unfoldable pub apply :
      (V → V → Bool) → String → Command V → ObjectStateMachine V → ObjectStateMachine V
  unfolding set_result
  apply spec_eq request (create none) m = set_result request (m, raised)
  apply spec_eq request (create (some o)) m = set_result request (do_create o m)
  apply spec_eq request (update none) m = set_result request (m, raised)
  apply spec_eq request (update (some o)) m = set_result request (do_update spec_eq o m)
  apply spec_eq request (delete k) m = set_result request (do_delete k m)
  apply spec_eq request other m = m

  unfoldable pub result_for : String → ObjectStateMachine V → Option (Outcome V)
  result_for request m = Dict.lookup request m.results

  -- The texts that `snapshot` makes are read back as the objects.
  unfoldable pub snapshot : ObjectStateMachine V → Dict (Object V)
  snapshot m = m.objects

  unfoldable pub restore : Dict (Object V) → ObjectStateMachine V → ObjectStateMachine V
  restore snap m = record m { objects = snap }

  -- `RaftStore.get`, and its `events_since`, which never raises.
  unfoldable pub raft_get : String → ObjectStateMachine V → Result (Object V)
  raft_get k m = elim (Dict.lookup k m.objects) [ none ↦ err (not_found k) | some o ↦ ok o ]

  unfoldable pub raft_events_since : ℕ → ObjectStateMachine V → List (Event V)
  raft_events_since r m = newer r m.history
