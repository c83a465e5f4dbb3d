-- ===== src/Orchestrator/Store/Updating.antt =====
-- store.py: what `update` of the in-memory store does on each of its branches.
use container_platform.Prelude.{
  ℕ, ◌+◌, String, ◌≡◌, refl, ap, ◌∙◌, ◌≢◌, inl, inr, Bool, true, false, none, some, arith, eq_iff,
  ◌==◌, str_eq, Bool-cases, Option-cases,
}
use container_platform.Prelude.Dict
use container_platform.Prelude.Dict.{
  Dict, AllEntries, lookup-AllEntries, lookup-insert, lookup-remove,
}
use container_platform.Orchestrator.Objects.{Object, conflict, not_found, ok, err, key}
use container_platform.Orchestrator.Store.{
  EventType, modified, MemoryStore, emit, put, update, replacement, update_present,
}

module _ {V : Type 0} where
  pub put_lem :
      (type : EventType) (o : Object V) (s : MemoryStore V)
      → ((put type o s).objects ≡ Dict.insert (key o) o s.objects)
        × ((put type o s).revision ≡ s.revision + 1)
  unfolding put emit
  put_lem type o s = (refl, refl)

  pub lookup-put :
      (type : EventType) (o : Object V) (s : MemoryStore V) (k : String)
      → key o ≡ k
      → Dict.lookup k (put type o s).objects ≡ some o
  lookup-put type o s k at =
      let found = lookup-insert (key o) k o s.objects in
      let same : str_eq (key o) k ≡ true = (eq_iff (key o) k).1 at in
      rw ((put_lem type o s).0, found, same) refl

  -- What `update` does with an object whose key is there.
  update-found :
      (eq : V → V → Bool) (o c : Object V) (s : MemoryStore V)
      → Dict.lookup (key o) s.objects ≡ some c
      → update eq o s ≡ update_present eq c o s
  unfolding update
  update-found eq o c s there = rw (there, update) refl

  pub update-missing :
      (eq : V → V → Bool) (o : Object V) (s : MemoryStore V)
      → Dict.lookup (key o) s.objects ≡ none
      → update eq o s ≡ (s, err (not_found (key o)))
  unfolding update
  update-missing eq o s absent = rw (absent, update) refl

  pub update-stale :
      (eq : V → V → Bool) (o c : Object V) (s : MemoryStore V)
      → Dict.lookup (key o) s.objects ≡ some c
      → o.meta.resource_version ≢ c.meta.resource_version
      → update eq o s ≡ (s, err (conflict (key o)))
  unfolding update_present
  update-stale eq o c s there other =
      let test : (o.meta.resource_version == c.meta.resource_version) ≡ false =
        ground (arith, other) in
      update-found eq o c s there ∙ (rw test refl)

  pub update-fresh :
      (eq : V → V → Bool) (o c : Object V) (s : MemoryStore V)
      → Dict.lookup (key o) s.objects ≡ some c
      → o.meta.resource_version ≡ c.meta.resource_version
      → update eq o s ≡ (
        put modified (replacement eq (s.revision + 1) c o) s,
        ok (replacement eq (s.revision + 1) c o),
      )
  update-fresh eq o c s there same =
      let test : (o.meta.resource_version == c.meta.resource_version) ≡ true = ground arith in
      update-found eq o c s there ∙ (unfold update_present in rw test refl)

  -- An update that succeeds had the version of the stored object.
  pub update-ok :
      (eq : V → V → Bool) (o stored : Object V) (s : MemoryStore V)
      → (update eq o s).1 ≡ ok stored
      → (c : Object V) × (Dict.lookup (key o) s.objects ≡ some c)
        × (o.meta.resource_version ≡ c.meta.resource_version)
        × (stored ≡ replacement eq (s.revision + 1) c o)
        × ((update eq o s).0 ≡ put modified stored s)
  update-ok eq o stored s done = elim (Option-cases (Dict.lookup (key o) s.objects)) [
    | inl absent ↦ absurd (update_absent absent done)
    | inr (c, there) ↦ elim (Bool-cases (o.meta.resource_version == c.meta.resource_version)) [
      | inl same ↦
          let run = update-fresh eq o c s there (ground (arith, same)) in
          let is : stored ≡ replacement eq (s.revision + 1) c o = cc in
          (c, there, ground (arith, same), is, rw is (ap (λ r. r.0) run))
      | inr other ↦ absurd (update_other c there other done)
    ]
  ]
    where
      update_absent : Dict.lookup (key o) s.objects ≡ none → (update eq o s).1 ≢ ok stored
      update_absent absent = rw (update-missing eq o s absent) (λ e. cc)

      update_other :
          (c : Object V)
          → Dict.lookup (key o) s.objects ≡ some c
          → (o.meta.resource_version == c.meta.resource_version) ≡ false
          → (update eq o s).1 ≢ ok stored
      update_other c there other =
          rw (update-stale eq o c s there (ground (arith, other))) (λ e. cc)

  pub replacement_lem :
      (eq : V → V → Bool) (rev : ℕ) (c o x : Object V)
      → x ≡ replacement eq rev c o
      → (x.meta.resource_version ≡ rev) × (key x ≡ key o)
  unfolding replacement key
  replacement_lem eq rev c o x is = rw is (refl, refl)
