-- ===== src/Orchestrator/Examples/Stores.antt =====
-- A store with one pod that two writers change, and the theorems about stores at it.
use container_platform.Prelude.{
  ℕ, ◌+◌, ◌-◌, ◌≡◌, refl, ap, ◌⊎◌, Bool, true, some, List, [], ◌∷◌, arith, length, ◌==◌,
}
use container_platform.Prelude.Dict
use container_platform.Orchestrator.Objects.{Object, err, resync, conflict, not_found, key, slashed}
use container_platform.Orchestrator.Store.{
  modified, MemoryStore, new_store, put, emit, bounded, deliver, create, update, replacement,
  update_present, create_absent, stamp_version, stamp_created, next_generation, events_since, newer,
}
use container_platform.Orchestrator.Store.Writes.{
  Write, creates, updates, write, writes, writes-IsValid, new_store-IsValid, IsValid,
}
use container_platform.Orchestrator.Store.History.{events_since_gap}
use container_platform.Orchestrator.Store.Versions.{version_identifies, update-conflict}
use container_platform.Orchestrator.Store.Machine
use container_platform.Orchestrator.Store.Machine.{
  ObjectStateMachine, new_machine, stored, result_for, do_update, restore, raft_events_since,
}
use container_platform.Orchestrator.Store.Replicas.{command, outcome, Agrees, apply-write}
use container_platform.Orchestrator.Store.Retry.{
  attempt, update_with_retry, updated, Based, update_with_retry-updated,
}

abbrev pod : ℕ → ℕ → Object ℕ
pod version replicas = record {
  kind = "Pod";
  meta = record {
    name = "web";
    namespace = "default";
    uid = "1f";
    resource_version = version;
    generation = 1;
    labels = [];
    annotations = [];
    owner = "";
    created_at = 7;
    deleted_at = 0;
  };
  spec = replicas;
  status = 0;
}

abbrev history : List (Write ℕ)
history = creates 5 (pod 0 1) ∷ updates (pod 1 2) ∷ updates (pod 1 3) ∷ []

abbrev store : MemoryStore ℕ
store = writes ◌==◌ history (new_store 1)

-- What the runs below unfold.
program : Unit {0}
unfolding writes write create create_absent update update_present put emit bounded deliver
    stamp_version stamp_created replacement next_generation key slashed new_store events_since newer
    Dict.lookup Dict.insert Dict.remove update_with_retry attempt
program = tt

store_revision : store.revision ≡ 2
unfolding program
store_revision = refl

store-IsValid : IsValid store
store-IsValid = writes-IsValid ◌==◌ history (new_store 1) (new_store-IsValid 1)

writes-IsValid_example : IsValid store
writes-IsValid_example = writes-IsValid ◌==◌ history (new_store 1) (new_store-IsValid 1)

events_since_gap_example :
    events_since 0 store ≡ err (resync 0 (store.revision - length store.history + 1))
unfolding program
events_since_gap_example =
    events_since_gap 0 store store-IsValid.recorded (omega arith) (omega arith)

version_identifies_example : pod 1 1 ≡ pod 1 1
unfolding program
version_identifies_example =
    version_identifies ◌==◌ (updates (pod 0 5) ∷ [])
      (writes ◌==◌ (creates 5 (pod 0 1) ∷ []) (new_store 9)) "Pod/default/web" (pod 1 1) (pod 1 1)
      (writes-IsValid ◌==◌ (creates 5 (pod 0 1) ∷ []) (new_store 9) (new_store-IsValid 9)) refl refl
      refl

update-conflict_example :
    let t = writes ◌==◌ [] (update ◌==◌ (pod 2 8) store).0 in
    (update ◌==◌ (pod 2 9) t ≡ (t, err (conflict (key (pod 2 9)))))
    ⊎ (update ◌==◌ (pod 2 9) t ≡ (t, err (not_found (key (pod 2 9)))))
unfolding program
update-conflict_example =
    update-conflict ◌==◌ [] store (pod 2 8) (pod 2 9)
      (record (pod 3 8) { meta = record (pod 3 8).meta { generation = 3 } }) store-IsValid refl refl
      refl

agrees : Agrees {V = ℕ} (new_store 4) new_machine
unfolding new_store
agrees = (refl, refl)

apply-write_example :
    let after = Machine.apply ◌==◌ "1-1" (command (creates 5 (pod 0 1))) new_machine in
    Agrees (write ◌==◌ (creates 5 (pod 0 1)) (new_store 4)) after
    × (result_for "1-1" after ≡ some (outcome ◌==◌ (creates 5 (pod 0 1)) (new_store 4)))
apply-write_example =
    apply-write ◌==◌ "1-1" (creates 5 (pod 0 1)) (new_store 4) new_machine agrees (omega arith)

abbrev machine : ObjectStateMachine ℕ
machine = record new_machine {
  revision = 3;
  history = record { type = modified; object = pod 3 3; revision = 3 } ∷ [];
}

abbrev scale : Object ℕ → Bool × Object ℕ
scale o = (true, record o { spec = o.spec + 1 })

scale_keeps :
    (c : Object ℕ)
    → (key (scale c).1 ≡ key c) × ((scale c).1.meta.resource_version ≡ c.meta.resource_version)
unfolding key
scale_keeps c = (refl, refl)

-- Another writer comes before the first attempt writes; the second one is left alone.
abbrev disturbed : List (List (Write ℕ))
disturbed = (updates (pod 2 8) ∷ []) ∷ [] ∷ []

scaled : update_with_retry ◌==◌ "Pod/default/web" scale disturbed store ≡ (
  put modified
      (record (pod 4 9) { meta = record (pod 4 9).meta { generation = 4 } })
      (writes ◌==◌ (updates (pod 2 8) ∷ []) store),
  updated (record (pod 4 9) { meta = record (pod 4 9).meta { generation = 4 } }),
)
unfolding program
scaled = refl

update_with_retry-updated_example :
    Based ◌==◌ "Pod/default/web" scale disturbed store
      (record (pod 4 9) { meta = record (pod 4 9).meta { generation = 4 } })
      (update_with_retry ◌==◌ "Pod/default/web" scale disturbed store).0
update_with_retry-updated_example =
    update_with_retry-updated ◌==◌ "Pod/default/web" scale disturbed store
      (record (pod 4 9) { meta = record (pod 4 9).meta { generation = 4 } }) store-IsValid
      scale_keeps (ap (λ r. r.1) scaled)
