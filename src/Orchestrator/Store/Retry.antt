-- ===== src/Orchestrator/Store/Retry.antt =====
-- store.py: `update_with_retry`, with what other writers do between the read and the write of each
-- attempt.
use container_platform.Prelude.{
  ℕ, suc, ◌+◌, ◌<◌, length, take, arith, String, ◌≡◌, refl, sym, ap, ◌∙◌, subst, ◌≢◌, ◌⊎◌, inl, inr,
  Bool, true, false, none, some, List, [], ◌∷◌, if◌then◌else◌, Bool-cases, Option-cases,
}
use container_platform.Prelude.Dict
use container_platform.Prelude.Dict.{
  Dict, AllEntries, lookup-AllEntries, lookup-insert, lookup-remove,
}
use container_platform.Orchestrator.Objects.{
  Object, StoreError, conflict, resync, not_found, already_exists, Result, ok, err, key,
}
use container_platform.Orchestrator.Store.{modified, MemoryStore, put, update, replacement}
use container_platform.Orchestrator.Store.Writes.{Write, writes, writes-IsValid, IsValid, Fits}
use container_platform.Orchestrator.Store.Versions.{version_identifies}
use container_platform.Orchestrator.Store.Updating.{update-ok}

-- `raised` is an error of `update` that is not a conflict.
pub data Retried (V : Type 0) : Type 0 where
  gone : Retried V
  abandoned : Object V → Retried V
  updated : Object V → Retried V
  gave_up : Retried V
  raised : StoreError → Retried V

module _ {V : Type 0} where
  -- `after_update rest t r`: what an attempt makes of the result of `update`.
  abbrev after_update :
      MemoryStore V × Retried V → MemoryStore V × Result (Object V) → MemoryStore V × Retried V
  after_update rest (t, ok x) = (t, updated x)
  after_update rest (t, err (conflict k)) = rest
  after_update rest (t, err (resync r o)) = rest
  after_update rest (t, err (not_found k)) = (t, raised (not_found k))
  after_update rest (t, err (already_exists k)) = (t, raised (already_exists k))

  unfoldable pub attempt :
      (V → V → Bool)
      → (Object V → Bool × Object V)
      → MemoryStore V × Retried V
      → Object V
      → MemoryStore V
      → MemoryStore V
      → MemoryStore V × Retried V
  unfolding update
  attempt eq mutate rest current s t =
      if (mutate current).0
      then after_update rest (update eq (mutate current).1 t)
      else (s, abandoned current)

  -- One list of writes for each attempt that is left.
  unfoldable pub update_with_retry :
      (V → V → Bool)
      → String
      → (Object V → Bool × Object V)
      → List (List (Write V))
      → MemoryStore V
      → MemoryStore V × Retried V
  unfolding attempt writes
  update_with_retry eq k mutate [] s = (s, gave_up)
  update_with_retry eq k mutate (ws ∷ rounds) s =
      let t = writes eq ws s in
      let rest = update_with_retry eq k mutate rounds t in
      elim (Dict.lookup k s.objects) [
        | none ↦ (s, gone)
        | some current ↦ attempt eq mutate rest current s t
      ]

  -- `mutate` keeps the key and the version that it read.
  abbrev pub KeepsIdentity : (Object V → Bool × Object V) → Type 0
  KeepsIdentity mutate =
      (c : Object V)
      → (key (mutate c).1 ≡ key c) × ((mutate c).1.meta.resource_version ≡ c.meta.resource_version)

  -- The store after all the writes of others in some rounds.
  abbrev pub after_rounds : (V → V → Bool) → List (List (Write V)) → MemoryStore V → MemoryStore V
  after_rounds eq [] s = s
  after_rounds eq (ws ∷ rounds) s = after_rounds eq rounds (writes eq ws s)

  -- A write of an attempt goes onto the object that stands in the store at that moment, which is the
  -- store `s` after the writes of others up to this attempt.
  abbrev pub Based :
      (V → V → Bool)
      → String
      → (Object V → Bool × Object V)
      → List (List (Write V))
      → MemoryStore V
      → Object V
      → MemoryStore V
      → Type 0
  Based eq k mutate rounds s x u =
      (i : ℕ) × (c : Object V) × (i < length rounds)
      × (Dict.lookup k (after_rounds eq (take (suc i) rounds) s).objects ≡ some c)
      × ((mutate c).0 ≡ true)
      × (x ≡ replacement eq ((after_rounds eq (take (suc i) rounds) s).revision + 1) c (mutate c).1)
      × (u ≡ put modified x (after_rounds eq (take (suc i) rounds) s))

  -- A later round of the rest is one round later of the whole.
  Based-later :
      (eq : V → V → Bool) (k : String) (mutate : Object V → Bool × Object V) (ws : List (Write V))
      (rounds : List (List (Write V))) (s : MemoryStore V) (x : Object V) (u : MemoryStore V)
      → Based eq k mutate rounds (writes eq ws s) x u
      → Based eq k mutate (ws ∷ rounds) s x u
  Based-later eq k mutate ws rounds s x u (i, c, inside, there, wanted, is, run) =
      (suc i, c, omega arith, there, wanted, is, run)

  after_update-updated :
      (rest r : MemoryStore V × Retried V) (a : MemoryStore V × Result (Object V))
      → r ≡ after_update rest a
      → (x : Object V) → r.1 ≡ updated x
      → ((a.1 ≡ ok x) × (r.0 ≡ a.0)) ⊎ (r ≡ rest)
  after_update-updated rest r (t, ok y) e x done = inl (cc, cc)
  after_update-updated rest r (t, err (conflict k)) e x done = inr e
  after_update-updated rest r (t, err (resync n o)) e x done = inr e
  after_update-updated rest r (t, err (not_found k)) e x done = cc
  after_update-updated rest r (t, err (already_exists k)) e x done = cc

  retry-missing :
      (eq : V → V → Bool) (k : String) (mutate : Object V → Bool × Object V) (ws : List (Write V))
      (rounds : List (List (Write V))) (s : MemoryStore V)
      → Dict.lookup k s.objects ≡ none
      → update_with_retry eq k mutate (ws ∷ rounds) s ≡ (s, gone)
  unfolding update_with_retry
  retry-missing eq k mutate ws rounds s absent = rw (absent, update_with_retry) refl

  retry-found :
      (eq : V → V → Bool) (k : String) (mutate : Object V → Bool × Object V) (ws : List (Write V))
      (rounds : List (List (Write V))) (s : MemoryStore V) (c : Object V)
      → Dict.lookup k s.objects ≡ some c
      → let t = writes eq ws s in
        update_with_retry eq k mutate (ws ∷ rounds) s ≡ (
          if (mutate c).0
          then after_update (update_with_retry eq k mutate rounds t) (update eq (mutate c).1 t)
          else (s, abandoned c))
  unfolding update_with_retry attempt
  retry-found eq k mutate ws rounds s c there = rw (there, update_with_retry) refl

  -- An attempt whose write stuck read the object that it replaced.
  attempt-updated :
      (eq : V → V → Bool) (k : String) (mutate : Object V → Bool × Object V) (ws : List (Write V))
      (s : MemoryStore V) (c x : Object V)
      → IsValid s
      → KeepsIdentity mutate
      → Dict.lookup k s.objects ≡ some c
      → (mutate c).0 ≡ true
      → (update eq (mutate c).1 (writes eq ws s)).1 ≡ ok x
      → (rounds : List (List (Write V)))
      → Based eq k mutate (ws ∷ rounds) s x (update eq (mutate c).1 (writes eq ws s)).0
  attempt-updated eq k mutate ws s c x h keeps there wanted stuck rounds =
      let t = writes eq ws s in
      let (d, found, read, is, run) = update-ok eq (mutate c).1 x t stuck in
      let fits : Fits s.revision k c =
        lookup-AllEntries (Fits s.revision) k s.objects there h.keyed in
      let at : key (mutate c).1 ≡ k = (keeps c).0 ∙ fits.0 in
      let here : Dict.lookup k t.objects ≡ some d = rw at at found in
      let same : c ≡ d = version_identifies eq ws s k c d h there here (sym read ∙ (keeps c).1) in
      (
        0,
        c,
        omega arith,
        here ∙ ap some (sym same),
        wanted,
        is ∙ ap (λ o. replacement eq (t.revision + 1) o (mutate c).1) (sym same),
        run,
      )

  -- No lost update: when `update_with_retry` says that its write stuck, whatever the other writers
  -- did between its reads and its writes, then the write was made of the object that stood at that
  -- moment in the store, with all writes of others up to then, and follows it directly. The store is valid, and `mutate` leaves the key
  -- and the version that it is given.
  pub update_with_retry-updated :
      (eq : V → V → Bool) (k : String) (mutate : Object V → Bool × Object V)
      (rounds : List (List (Write V))) (s : MemoryStore V) (x : Object V)
      → IsValid s
      → KeepsIdentity mutate
      → (update_with_retry eq k mutate rounds s).1 ≡ updated x
      → Based eq k mutate rounds s x (update_with_retry eq k mutate rounds s).0
  update_with_retry-updated eq k mutate [] s x h keeps done = absurd (nothing_updated done)
    where
      nothing_updated : (update_with_retry eq k mutate [] s).1 ≢ updated x
      nothing_updated = unfold update_with_retry in λ e. cc
  update_with_retry-updated eq k mutate (ws ∷ rounds) s x h keeps done =
      elim (Option-cases (Dict.lookup k s.objects)) [
        | inl absent ↦ let run = retry-missing eq k mutate ws rounds s absent in cc
        | inr (c, there) ↦ elim (Bool-cases (mutate c).0) [
          | inl wanted ↦
              let t = writes eq ws s in
              let rest = update_with_retry eq k mutate rounds t in
              let run : update_with_retry eq k mutate (ws ∷ rounds) s
                  ≡ after_update rest (update eq (mutate c).1 t) =
                rw wanted at (retry-found eq k mutate ws rounds s c there) in
              elim (after_update-updated rest _ (update eq (mutate c).1 t) run x done) [
                | inl won ↦
                    subst (Based eq k mutate (ws ∷ rounds) s x) (sym won.1)
                      (attempt-updated eq k mutate ws s c x h keeps there wanted won.0 rounds)
                | inr again ↦
                    subst
                      (λ (u : MemoryStore V × Retried V). Based eq k mutate (ws ∷ rounds) s x u.0)
                      (sym again)
                      (Based-later eq k mutate ws rounds s x _ (
                        update_with_retry-updated eq k mutate rounds t x (writes-IsValid eq ws s h)
                          keeps (subst (λ u. u.1 ≡ updated x) again done)))
              ]
          | inr refused ↦
              let run : update_with_retry eq k mutate (ws ∷ rounds) s ≡ (s, abandoned c) =
                rw refused at (retry-found eq k mutate ws rounds s c there) in
              cc
        ]
      ]

  -- No conflict is left: a version is written, or there is nothing to write, or the object is gone,
  -- when it is read or when it is written.
  abbrev pub IsSettled : Retried V → Type 0
  IsSettled gone = Unit
  IsSettled (abandoned c) = Unit
  IsSettled (updated x) = Unit
  IsSettled gave_up = ⊥
  IsSettled (raised (not_found k)) = Unit
  IsSettled (raised _) = ⊥

  -- The same, and the object was not gone when it was written.
  abbrev pub IsDone : Retried V → Type 0
  IsDone (raised e) = ⊥
  IsDone r = IsSettled r

  stuck :
      (wanted : Bool) (rest : MemoryStore V × Retried V) (t s : MemoryStore V) (x c : Object V)
      → IsDone (if wanted then after_update rest (t, ok x) else (s, abandoned c)).1
  stuck false rest t s x c = tt
  stuck true rest t s x c = tt
