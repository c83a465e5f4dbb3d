-- ===== src/Orchestrator/Store/Writes.antt =====
-- The methods of the in-memory store of store.py that write, and what all of them keep.
use container_platform.Prelude.{
  ℕ, ◌+◌, ◌≤◌, String, ◌≡◌, refl, inl, inr, Bool, List, [], ◌∷◌, arith, ◌==◌, Bool-cases,
  Option-cases, All-map,
}
use container_platform.Prelude.Dict
use container_platform.Prelude.Dict.{
  Dict, AllEntries, AllEntries-insert, AllEntries-remove, lookup-AllEntries,
}
use container_platform.Orchestrator.Objects.{Object, key}
use container_platform.Orchestrator.Store.{
  EventType, added, modified, MemoryStore, new_store, emit, put, create, update, delete,
  stamp_version, stamp_created, replacement, create_absent, update_present, delete_present,
}
use container_platform.Orchestrator.Store.History.{IsRecorded, bounded-IsRecorded}

-- A call of `create`, `update` or `delete`.
pub data Write (V : Type 0) : Type 0 where
  creates : ℕ → Object V → Write V
  updates : Object V → Write V
  deletes : ℕ → String → Write V

module _ {V : Type 0} where
  abbrev pub Fits : ℕ → String → Object V → Type 0
  Fits revision k o = (key o ≡ k) × (o.meta.resource_version ≤ revision)

  -- Every object stands at its key, with a version that the store has given out, and the history
  -- ends at the current revision without a gap.
  pub record IsValid (s : MemoryStore V) : Type 0 where
    pub keyed : AllEntries (Fits s.revision) s.objects
    pub recorded : IsRecorded s.history_limit s.revision s.history

  Fits-later : (r : ℕ) (d : Dict (Object V)) → AllEntries (Fits r) d → AllEntries (Fits (r + 1)) d
  Fits-later r d h =
      All-map (λ e. Fits r e.0 e.1) (λ e. Fits (r + 1) e.0 e.1) (λ e f. (f.0, omega (arith, f.1))) d
        h

  put-IsValid :
      (type : EventType) (o : Object V) (s : MemoryStore V)
      → o.meta.resource_version ≤ s.revision + 1
      → IsValid s
      → IsValid (put type o s)
  unfolding put emit
  put-IsValid type o s fits h = record {
    keyed =
        AllEntries-insert (Fits (s.revision + 1)) (key o) o s.objects (refl, fits)
          (Fits-later s.revision s.objects h.keyed);
    recorded = bounded-IsRecorded s.history_limit s.revision s.history _ h.recorded refl;
  }

  pub new_store-IsValid : (limit : ℕ) → IsValid (new_store limit)
  unfolding new_store
  new_store-IsValid limit = record {
    keyed = tt;
    recorded = record { run = tt; many = omega arith };
  }

  create_absent-IsValid :
      (now : ℕ) (o : Object V) (s : MemoryStore V) → IsValid s → IsValid (create_absent now o s).0
  create_absent-IsValid now o s h =
      unfold create_absent in
      put-IsValid added _ s (unfold stamp_created stamp_version in ground arith) h

  update_present-IsValid :
      (eq : V → V → Bool) (c o : Object V) (s : MemoryStore V)
      → IsValid s
      → IsValid (update_present eq c o s).0
  update_present-IsValid eq c o s h =
      let changed =
        put-IsValid modified (replacement eq (s.revision + 1) c o) s
          (unfold replacement in omega arith) h in
      unfold update_present in
      elim (Bool-cases (o.meta.resource_version == c.meta.resource_version)) [
        | inl same ↦ rw same changed
        | inr other ↦ rw other h
      ]

  delete_present-IsValid :
      (now : ℕ) (k : String) (o : Object V) (s : MemoryStore V)
      → IsValid s
      → IsValid (delete_present now k o s)
  unfolding delete_present
  delete_present-IsValid now k o s h = record {
    keyed =
        AllEntries-remove (Fits (s.revision + 1)) k s.objects
          (Fits-later s.revision s.objects h.keyed);
    recorded = bounded-IsRecorded s.history_limit s.revision s.history _ h.recorded refl;
  }

  unfoldable pub write : (V → V → Bool) → Write V → MemoryStore V → MemoryStore V
  unfolding create update delete
  write eq (creates now o) s = (create now o s).0
  write eq (updates o) s = (update eq o s).0
  write eq (deletes now k) s = (delete now k s).0

  unfoldable pub writes : (V → V → Bool) → List (Write V) → MemoryStore V → MemoryStore V
  unfolding write
  writes eq [] s = s
  writes eq (w ∷ ws) s = writes eq ws (write eq w s)

  write-IsValid :
      (eq : V → V → Bool) (w : Write V) (s : MemoryStore V) → IsValid s → IsValid (write eq w s)
  unfolding write
  write-IsValid eq (creates now o) s h = elim (Option-cases (Dict.lookup (key o) s.objects)) [
    | inl absent ↦ rw (absent, write) (create_absent-IsValid now o s h)
    | inr (other, there) ↦ rw (there, write) h
  ]
  write-IsValid eq (updates o) s h = elim (Option-cases (Dict.lookup (key o) s.objects)) [
    | inl absent ↦ rw (absent, write) h
    | inr (c, there) ↦ rw (there, write) (update_present-IsValid eq c o s h)
  ]
  write-IsValid eq (deletes now k) s h = elim (Option-cases (Dict.lookup k s.objects)) [
    | inl absent ↦ rw (absent, write) h
    | inr (c, there) ↦ rw (there, write) (delete_present-IsValid now k c s h)
  ]

  -- Whatever is written, and whatever the writes answer, a valid store stays valid: every object
  -- stands at its key with a version that was given out, and the history ends at the revision without
  -- a gap and with no more events than its limit.
  pub writes-IsValid :
      (eq : V → V → Bool) (ws : List (Write V)) (s : MemoryStore V)
      → IsValid s
      → IsValid (writes eq ws s)
  writes-IsValid eq [] s h = unfold writes in h
  writes-IsValid eq (w ∷ ws) s h =
      writes_cons (writes-IsValid eq ws (write eq w s) (write-IsValid eq w s h))
    where
      writes_cons : IsValid (writes eq ws (write eq w s)) → IsValid (writes eq (w ∷ ws) s)
      writes_cons = unfold writes in λ v. v
