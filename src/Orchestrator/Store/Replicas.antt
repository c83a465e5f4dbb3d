-- ===== src/Orchestrator/Store/Replicas.antt =====
-- store.py: the store in memory and the replicated state machine do the same writes.
use container_platform.Prelude.{
  ℕ, ◌+◌, ◌-◌, ◌<◌, String, ◌≡◌, refl, sym, ap, ◌∙◌, ◌≢◌, inl, inr, Bool, true, some, List, [], ◌∷◌,
  arith, eq_iff, length, All, ◌==◌, str_eq, Bool-cases, Option-cases,
}
use container_platform.Prelude.Dict
use container_platform.Prelude.Dict.{
  Dict, AllEntries, lookup-AllEntries, lookup-insert, lookup-remove,
}
use container_platform.Orchestrator.Objects.{Object, Result, ok, err, key}
use container_platform.Orchestrator.Store.{
  EventType, added, modified, MemoryStore, emit, put, create, update, delete, stamp_version,
  stamp_created, replacement, update_present, delete_present,
}
use container_platform.Orchestrator.Store.Writes.{Write, creates, updates, deletes, write, writes}
use container_platform.Orchestrator.Store.Machine
use container_platform.Orchestrator.Store.Machine.{
  Outcome, stored, removed, failed, raised, Command, ObjectStateMachine, new_machine, result_for,
  restore, raft_events_since, do_create, do_update, do_delete, history_limit,
}
use container_platform.Orchestrator.Store.History.{IsConsecutive, newer_all}

module _ {V : Type 0} where
  -- The command that `RaftStore` proposes for a write.
  unfoldable pub command : Write V → Command V
  command (creates now o) = Machine.create (some o)
  command (updates o) = Machine.update (some o)
  command (deletes now k) = Machine.delete k

  abbrev outcome_of : Result (Object V) → Outcome V
  outcome_of (ok o) = stored o
  outcome_of (err e) = failed e

  abbrev outcome_of_delete : Result Unit → Outcome V
  outcome_of_delete (ok tt) = removed
  outcome_of_delete (err e) = failed e

  -- What the store in memory answers, as the state machine says it.
  unfoldable pub outcome : (V → V → Bool) → Write V → MemoryStore V → Outcome V
  unfolding create update delete
  outcome eq (creates now o) s = outcome_of (create now o s).1
  outcome eq (updates o) s = outcome_of (update eq o s).1
  outcome eq (deletes now k) s = outcome_of_delete (delete now k s).1

  -- An object to create has its time: `create` of the store in memory would set it.
  abbrev pub IsStamped : Write V → Type 0
  IsStamped (creates now o) = o.meta.created_at ≢ 0
  IsStamped (updates o) = Unit
  IsStamped (deletes now k) = Unit

  abbrev pub Agrees : MemoryStore V → ObjectStateMachine V → Type 0
  Agrees s m = (s.objects ≡ m.objects) × (s.revision ≡ m.revision)

  unfoldable pub apply_writes :
      (V → V → Bool) → String → List (Write V) → ObjectStateMachine V → ObjectStateMachine V
  unfolding Machine.apply command
  apply_writes eq request [] m = m
  apply_writes eq request (w ∷ ws) m =
      apply_writes eq request ws (Machine.apply eq request (command w) m)

  -- A store and its answer beside a machine and its outcome.
  abbrev IsSame : MemoryStore V → Outcome V → ObjectStateMachine V × Outcome V → Type 0
  IsSame s r m = Agrees s m.0 × (m.1 ≡ r)

  put-Agrees :
      (type : EventType) (o p : Object V) (s : MemoryStore V) (m : ObjectStateMachine V)
      → Agrees s m
      → o ≡ p
      → Agrees (put type o s) (Machine.put type p m)
  unfolding put emit Machine.put
  put-Agrees type o p s m h same = (
    ap (Dict.insert (key o) o) h.0 ∙ ap (λ x. Dict.insert (key x) x m.objects) same,
    omega (arith, h.1),
  )

  delete_present-Agrees :
      (now : ℕ) (k : String) (o : Object V) (s : MemoryStore V) (m : ObjectStateMachine V)
      → Agrees s m
      → Agrees (delete_present now k o s) (Machine.delete_present k o m)
  unfolding delete_present emit Machine.delete_present
  delete_present-Agrees now k o s m h = (ap (Dict.remove k) h.0, omega (arith, h.1))

  stamp_created_none : (now : ℕ) (o : Object V) → o.meta.created_at ≢ 0 → stamp_created now o ≡ o
  unfolding stamp_created
  stamp_created_none now o stamped = ground (arith, stamped)

  create-do_create :
      (now : ℕ) (o : Object V) (s : MemoryStore V) (m : ObjectStateMachine V)
      → Agrees s m
      → o.meta.created_at ≢ 0
      → IsSame (create now o s).0 (outcome_of (create now o s).1) (do_create o m)
  unfolding create do_create
  create-do_create now o s m h stamped = elim (Option-cases (Dict.lookup (key o) s.objects)) [
    | inl absent ↦
        let version : stamp_created now (stamp_version (s.revision + 1) o)
            ≡ stamp_version (m.revision + 1) o =
          rw h.1 (stamp_created_none now (stamp_version (m.revision + 1) o) stamped) in
        rw (absent, create)
          (rw (rw h.0 at absent, do_create)
            (put-Agrees added _ _ s m h version, ap stored (sym version)))
    | inr (other, there) ↦ rw (there, create) (rw (rw h.0 at there, do_create) (h, refl))
  ]

  update_present-Agrees :
      (eq : V → V → Bool) (c o : Object V) (s : MemoryStore V) (m : ObjectStateMachine V)
      → Agrees s m
      → IsSame
          (update_present eq c o s).0
          (outcome_of (update_present eq c o s).1)
          (Machine.update_present eq c o m)
  unfolding update_present Machine.update_present
  update_present-Agrees eq c o s m h =
      let same : replacement eq (s.revision + 1) c o ≡ replacement eq (m.revision + 1) c o =
        ap (λ r. replacement eq (r + 1) c o) h.1 in
      elim (Bool-cases (o.meta.resource_version == c.meta.resource_version)) [
        | inl read ↦ rw read (put-Agrees modified _ _ s m h same, ap stored (sym same))
        | inr other ↦ rw other (h, refl)
      ]

  update-do_update :
      (eq : V → V → Bool) (o : Object V) (s : MemoryStore V) (m : ObjectStateMachine V)
      → Agrees s m
      → IsSame (update eq o s).0 (outcome_of (update eq o s).1) (do_update eq o m)
  unfolding update do_update
  update-do_update eq o s m h = elim (Option-cases (Dict.lookup (key o) s.objects)) [
    | inl absent ↦ rw (absent, update) (rw (rw h.0 at absent, do_update) (h, refl))
    | inr (c, there) ↦
        rw (there, update) (rw (rw h.0 at there, do_update) (update_present-Agrees eq c o s m h))
  ]

  delete-do_delete :
      (now : ℕ) (k : String) (s : MemoryStore V) (m : ObjectStateMachine V)
      → Agrees s m
      → IsSame (delete now k s).0 (outcome_of_delete (delete now k s).1) (do_delete k m)
  unfolding delete do_delete
  delete-do_delete now k s m h = elim (Option-cases (Dict.lookup k s.objects)) [
    | inl absent ↦ rw (absent, delete) (rw (rw h.0 at absent, do_delete) (h, refl))
    | inr (c, there) ↦
        rw (there, delete)
          (rw (rw h.0 at there, do_delete) (delete_present-Agrees now k c s m h, refl))
  ]

  set_result_lem :
      (request : String) (s : MemoryStore V) (r : Outcome V) (m : ObjectStateMachine V × Outcome V)
      → IsSame s r m
      → let after = Machine.set_result request m in
        Agrees s after × (result_for request after ≡ some r)
  unfolding Machine.set_result result_for
  set_result_lem request s r m h =
      let found = lookup-insert request request m.1 m.0.results in
      let same : str_eq request request ≡ true = (eq_iff request request).1 refl in
      (h.0, rw (found, same) (ap some h.1))

  -- The state machine does what the store in memory does: at equal objects and revision, a write
  -- and its command (an object to create has its time) leave equal objects and revision, and the
  -- result under the request is the answer of the store, errors included.
  pub apply-write :
      (eq : V → V → Bool) (request : String) (w : Write V) (s : MemoryStore V)
      (m : ObjectStateMachine V)
      → Agrees s m
      → IsStamped w
      → let after = Machine.apply eq request (command w) m in
        Agrees (write eq w s) after × (result_for request after ≡ some (outcome eq w s))
  unfolding Machine.apply command write outcome
  apply-write eq request (creates now o) s m h stamped =
      set_result_lem request (create now o s).0 (outcome_of (create now o s).1) (do_create o m)
        (create-do_create now o s m h stamped)
  apply-write eq request (updates o) s m h stamped =
      set_result_lem request (update eq o s).0 (outcome_of (update eq o s).1) (do_update eq o m)
        (update-do_update eq o s m h)
  apply-write eq request (deletes now k) s m h stamped =
      set_result_lem request (delete now k s).0 (outcome_of_delete (delete now k s).1)
        (do_delete k m) (delete-do_delete now k s m h)

  -- So a replica that has applied the commands of any writes, in their order, has the objects and
  -- the revision of the store in memory after the writes.
  pub apply_writes-Agrees :
      (eq : V → V → Bool) (request : String) (ws : List (Write V)) (s : MemoryStore V)
      (m : ObjectStateMachine V)
      → Agrees s m
      → All IsStamped ws
      → Agrees (writes eq ws s) (apply_writes eq request ws m)
  unfolding writes apply_writes
  apply_writes-Agrees eq request [] s m h stamped = h
  apply_writes-Agrees eq request (w ∷ ws) s m h stamped =
      apply_writes-Agrees eq request ws (write eq w s) (Machine.apply eq request (command w) m)
        (apply-write eq request w s m h stamped.0).0 stamped.1

  -- A state machine that is restored from a snapshot gives versions out again: on a new machine
  -- that is restored, an update of an object that the snapshot has at version 1, whatever it
  -- changes, is answered with version 1 too.
  pub do_update-restore :
      (eq : V → V → Bool) (snap : Dict (Object V)) (c o : Object V)
      → Dict.lookup (key o) snap ≡ some c
      → c.meta.resource_version ≡ 1
      → o.meta.resource_version ≡ 1
      → (x : Object V) × ((do_update eq o (restore snap new_machine)).1 ≡ stored x)
        × (x.meta.resource_version ≡ 1)
        × (x.spec ≡ o.spec)
  unfolding do_update restore Machine.update_present replacement
  do_update-restore eq snap c o there current read =
      let test : (o.meta.resource_version == c.meta.resource_version) ≡ true = ground arith in
      (replacement eq 1 c o, rw (there, do_update) (rw test refl), refl, refl)

  -- `RaftStore.events_since` answers with a gap where the store in memory says to list again: for
  -- a revision older than what the machine keeps, whose history ends at its revision without a gap,
  -- it gives all that it keeps, which are fewer events than there were.
  pub raft_events_since_gap :
      (r : ℕ) (m : ObjectStateMachine V)
      → IsConsecutive (m.revision - length m.history) m.history
      → r + length m.history < m.revision
      → (raft_events_since r m ≡ m.history) × (length (raft_events_since r m) < m.revision - r)
  unfolding raft_events_since
  raft_events_since_gap r m h lost =
      let all = newer_all (m.revision - length m.history) r m.history (omega arith) h in
      (all, rw all (omega arith))
