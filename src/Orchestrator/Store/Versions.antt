-- ===== src/Orchestrator/Store/Versions.antt =====
-- Optimistic concurrency in store.py: what a version says, and who loses a race.
use container_platform.Prelude.{
  ℕ, ◌+◌, ◌≤◌, ◌<◌, String, ◌≡◌, refl, sym, ap, ◌∙◌, subst, ◌⊎◌, inl, inr, Bool, none, some, List,
  [], ◌∷◌, arith, ◌==◌, str_eq, if◌then◌else◌, Bool-cases, Option-cases,
}
use container_platform.Prelude.Dict
use container_platform.Prelude.Dict.{
  Dict, AllEntries, lookup-AllEntries, lookup-insert, lookup-remove,
}
use container_platform.Orchestrator.Objects.{Object, conflict, not_found, ok, err, key}
use container_platform.Orchestrator.Store.{
  EventType, added, modified, MemoryStore, emit, put, update, stamp_version, stamp_created,
  replacement, create_absent, update_present, delete_present,
}
use container_platform.Orchestrator.Store.Writes.{
  Write, creates, updates, deletes, write, writes, IsValid, Fits,
}
use container_platform.Orchestrator.Store.Updating.{
  put_lem, lookup-put, update-ok, update-stale, update-missing, replacement_lem,
}

module _ {V : Type 0} where
  -- What a store becomes: an object that was not there before has a later version.
  pub record IsLater (s t : MemoryStore V) : Type 0 where
    pub revision : s.revision ≤ t.revision
    pub changed :
        (k : String) (o : Object V)
        → Dict.lookup k t.objects ≡ some o
        → (Dict.lookup k s.objects ≡ some o) ⊎ (s.revision < o.meta.resource_version)

  IsLater-refl : (s : MemoryStore V) → IsLater s s
  IsLater-refl s = record { revision = omega arith; changed = λ k o h. inl h }

  IsLater-trans : {s t u : MemoryStore V} → IsLater s t → IsLater t u → IsLater s u
  IsLater-trans p q = record {
    revision = omega arith;
    changed = λ k o h. elim (q.changed k o h) [
      | inl old ↦ p.changed k o old
      | inr new ↦ inr (omega (arith, p.revision))
    ];
  }

  put-IsLater :
      (type : EventType) (o : Object V) (s : MemoryStore V)
      → o.meta.resource_version ≡ s.revision + 1
      → IsLater s (put type o s)
  put-IsLater type o s h =
      let (objects, revision) = put_lem type o s in
      record {
        revision = omega arith;
        changed = λ k x there.
            let found : (if str_eq (key o) k then some o else Dict.lookup k s.objects) ≡ some x =
              sym (lookup-insert (key o) k o s.objects) ∙ (rw objects at there) in
            ground (arith, found);
      }

  create_absent-IsLater :
      (now : ℕ) (o : Object V) (s : MemoryStore V) → IsLater s (create_absent now o s).0
  create_absent-IsLater now o s =
      unfold create_absent in
      put-IsLater added _ s (unfold stamp_created stamp_version in ground arith)

  update_present-IsLater :
      (eq : V → V → Bool) (c o : Object V) (s : MemoryStore V)
      → IsLater s (update_present eq c o s).0
  update_present-IsLater eq c o s =
      let changed =
        put-IsLater modified (replacement eq (s.revision + 1) c o) s (unfold replacement in refl) in
      unfold update_present in
      elim (Bool-cases (o.meta.resource_version == c.meta.resource_version)) [
        | inl same ↦ rw same changed
        | inr other ↦ rw other (IsLater-refl s)
      ]

  delete_present-IsLater :
      (now : ℕ) (k : String) (o : Object V) (s : MemoryStore V)
      → IsLater s (delete_present now k o s)
  unfolding delete_present emit
  delete_present-IsLater now k o s = record {
    revision = omega arith;
    changed = λ j x there.
        let found : (if str_eq k j then none else Dict.lookup j s.objects) ≡ some x =
          sym (lookup-remove k j s.objects) ∙ there in
        ground (arith, found);
  }

  write-IsLater : (eq : V → V → Bool) (w : Write V) (s : MemoryStore V) → IsLater s (write eq w s)
  unfolding write
  write-IsLater eq (creates now o) s = elim (Option-cases (Dict.lookup (key o) s.objects)) [
    | inl absent ↦ rw (absent, write) (create_absent-IsLater now o s)
    | inr (other, there) ↦ rw (there, write) (IsLater-refl s)
  ]
  write-IsLater eq (updates o) s = elim (Option-cases (Dict.lookup (key o) s.objects)) [
    | inl absent ↦ rw (absent, write) (IsLater-refl s)
    | inr (c, there) ↦ rw (there, write) (update_present-IsLater eq c o s)
  ]
  write-IsLater eq (deletes now k) s = elim (Option-cases (Dict.lookup k s.objects)) [
    | inl absent ↦ rw (absent, write) (IsLater-refl s)
    | inr (c, there) ↦ rw (there, write) (delete_present-IsLater now k c s)
  ]

  pub writes-IsLater :
      (eq : V → V → Bool) (ws : List (Write V)) (s : MemoryStore V) → IsLater s (writes eq ws s)
  writes-IsLater eq [] s = unfold writes in IsLater-refl s
  writes-IsLater eq (w ∷ ws) s =
      writes_cons (IsLater-trans (write-IsLater eq w s) (writes-IsLater eq ws (write eq w s)))
    where
      writes_cons : IsLater s (writes eq ws (write eq w s)) → IsLater s (writes eq (w ∷ ws) s)
      writes_cons = unfold writes in λ v. v

  -- A version identifies what is stored: if, after any writes to a valid store, the object at a key
  -- has the version that the object there had before, it is the same object.
  pub version_identifies :
      (eq : V → V → Bool) (ws : List (Write V)) (s : MemoryStore V) (k : String) (a b : Object V)
      → IsValid s
      → Dict.lookup k s.objects ≡ some a
      → Dict.lookup k (writes eq ws s).objects ≡ some b
      → b.meta.resource_version ≡ a.meta.resource_version
      → a ≡ b
  version_identifies eq ws s k a b h before after same =
      let fits : Fits s.revision k a =
        lookup-AllEntries (Fits s.revision) k s.objects before h.keyed in
      elim ((writes-IsLater eq ws s).changed k b after) [
        | inl old ↦ cc
        | inr new ↦ absurd (omega (arith, fits.1))
      ]

  -- Of two writers that read the same version of an object, the second loses: after an update of
  -- a valid store that succeeds, and any further writes, an update of the same key with the version
  -- that the first one had is refused, as a conflict or since the object is gone, and changes nothing.
  pub update-conflict :
      (eq : V → V → Bool) (ws : List (Write V)) (s : MemoryStore V) (o p stored : Object V)
      → IsValid s
      → (update eq o s).1 ≡ ok stored
      → key p ≡ key o
      → p.meta.resource_version ≡ o.meta.resource_version
      → let t = writes eq ws (update eq o s).0 in
        (update eq p t ≡ (t, err (conflict (key p))))
        ⊎ (update eq p t ≡ (t, err (not_found (key p))))
  update-conflict eq ws s o p stored h done same stale =
      let (c, there, read, is, run) = update-ok eq o stored s done in
      let fits : Fits s.revision (key o) c =
        lookup-AllEntries (Fits s.revision) (key o) s.objects there h.keyed in
      let t = writes eq ws (update eq o s).0 in
      let later : IsLater (put modified stored s) t =
        subst (λ u. IsLater u t) run (writes-IsLater eq ws (update eq o s).0) in
      let (version, at) = replacement_lem eq (s.revision + 1) c o stored is in
      let now = lookup-put modified stored s (key p) (at ∙ sym same) in
      let revision = (put_lem modified stored s).1 in
      elim (Option-cases (Dict.lookup (key p) t.objects)) [
        | inl absent ↦ inr (update-missing eq p t absent)
        | inr (d, found) ↦ inl (
            update-stale eq p d t found (elim (later.changed (key p) d found) [
              | inl old ↦
                  let kept : stored ≡ d = cc in
                  let rv : stored.meta.resource_version ≡ d.meta.resource_version =
                    ap (λ x. x.meta.resource_version) kept in
                  (λ e. omega (arith, fits.1))
              | inr new ↦ (λ e. omega (arith, fits.1))
            ]))
      ]
