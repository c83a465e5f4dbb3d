-- ===== src/Orchestrator/Store/History.antt =====
-- The history of store.py's stores: revisions without a gap, and what a watcher is told that resumes.
use native.Mathlib.Nat.{add-zero}
use container_platform.Prelude.{
  ℕ, zero, suc, ◌+◌, ◌-◌, ◌≤◌, ◌<◌, min, ◌≡◌, refl, ap, subst, inl, inr, List, [], ◌∷◌, ◌++◌, arith,
  length, drop, ltb, ◌==◌, if◌then◌else◌, Bool-cases, length-append, length-drop, drop-nil,
}
use container_platform.Orchestrator.Objects.{resync, ok, err}
use container_platform.Orchestrator.Store.{Event, MemoryStore, bounded, newer, events_since}

module _ {V : Type 0} where
  -- The events have the revisions `start + 1`, `start + 2` and so on.
  abbrev pub IsConsecutive : ℕ → List (Event V) → Type 0
  IsConsecutive start [] = Unit
  IsConsecutive start (e ∷ es) = (e.revision ≡ suc start) × IsConsecutive (suc start) es

  IsConsecutive-append :
      (start : ℕ) (es : List (Event V)) (e : Event V)
      → IsConsecutive start es
      → e.revision ≡ suc (start + length es)
      → IsConsecutive start (es ++ e ∷ [])
  IsConsecutive-append start [] e h k = omega arith
  IsConsecutive-append start (x ∷ es) e h k =
      (h.0, IsConsecutive-append (suc start) es e h.1 (omega arith))

  IsConsecutive-drop :
      (start n : ℕ) (es : List (Event V))
      → n ≤ length es
      → IsConsecutive start es
      → IsConsecutive (start + n) (drop n es)
  IsConsecutive-drop start zero es k h = rw add-zero h
  IsConsecutive-drop start (suc n) [] k h = elim k [ ]
  IsConsecutive-drop start (suc n) (e ∷ es) k h =
      let q : start + suc n ≡ suc start + n = omega arith in
      rw q (IsConsecutive-drop (suc start) n es (omega arith) h.1)

  pub newer_all :
      (start r : ℕ) (es : List (Event V)) → r ≤ start → IsConsecutive start es → newer r es ≡ es
  unfolding newer
  newer_all start r [] low h = refl
  newer_all start r (e ∷ es) low h = ground (arith, newer_all (suc start) r es)

  newer-drop :
      (start r : ℕ) (es : List (Event V))
      → start ≤ r
      → IsConsecutive start es
      → newer r es ≡ drop (r - start) es
  unfolding newer
  newer-drop start r [] low h = rw drop-nil
  newer-drop start r (e ∷ es) low h = elim (Bool-cases (start == r)) [
    | inl here ↦
        let none_dropped : r - start ≡ 0 = ground arith in
        rw none_dropped (ground (arith, newer_all (suc start) r es))
    | inr below ↦
        let one_dropped : r - start ≡ suc (r - suc start) = ground arith in
        let rest = newer-drop (suc start) r es (ground arith) h.1 in
        rw one_dropped (ground (arith, rest))
  ]

  -- The last events, up to the current revision, and not more of them than the limit.
  pub record IsRecorded (limit revision : ℕ) (history : List (Event V)) : Type 0 where
    pub run : IsConsecutive (revision - length history) history
    pub many : length history ≡ min limit revision

  pub bounded-IsRecorded :
      (limit revision : ℕ) (history : List (Event V)) (e : Event V)
      → IsRecorded limit revision history
      → e.revision ≡ revision + 1
      → IsRecorded limit (revision + 1) (bounded limit (history ++ e ∷ []))
  bounded-IsRecorded limit revision history e h next =
      elim (Bool-cases (ltb limit (length longer))) [
        | inl full ↦
            let n = length longer - limit in
            let q : revision - length history + n ≡ revision + 1 - length (drop n longer) =
              ground (arith, size, length-drop n longer, h.many) in
            unfold bounded in
            rw full (record {
              run =
                  rw q at
                    (IsConsecutive-drop (revision - length history) n longer (omega arith) run);
              many = ground (arith, size, length-drop n longer, h.many);
            })
        | inr fits ↦
            let q : revision - length history ≡ revision + 1 - length longer =
              omega (arith, size, h.many) in
            unfold bounded in
            rw fits (record { run = rw q at run; many = ground (arith, size, h.many) })
      ]
    where
      longer : List (Event V)
      longer = history ++ e ∷ []

      size : length longer ≡ length history + 1
      size = length-append history (e ∷ [])

      run : IsConsecutive (revision - length history) longer
      run = IsConsecutive-append (revision - length history) history e h.run (omega (arith, h.many))

  -- What `events_since` answers: an error exactly if the revision is older than what is kept, and
  -- otherwise every later event, in order.
  pub newer-IsConsecutive :
      (limit revision r : ℕ) (history : List (Event V))
      → IsRecorded limit revision history
      → r ≤ revision
      → revision ≤ r + length history
      → IsConsecutive r (newer r history) × (length (newer r history) ≡ revision - r)
  newer-IsConsecutive limit revision r history h old kept =
      let start = revision - length history in
      let low : start ≤ r = omega arith in
      let n = r - start in
      let at : start + n ≡ r = omega arith in
      rw (newer-drop start r history low h.run) (
        rw at at (IsConsecutive-drop start n history (omega (arith, h.many)) h.run),
        omega (arith, length-drop n history, h.many),
      )

  events_since-cons :
      (r : ℕ) (s : MemoryStore V) (x : Event V) (es : List (Event V))
      → s.history ≡ x ∷ es
      → events_since r s
        ≡ (if ltb r (x.revision - 1) then err (resync r x.revision) else ok (newer r s.history))
  unfolding events_since
  events_since-cons r s x es e =
      rw (e, events_since)
        (ap
          (λ (l : List (Event V)).
            if ltb r (x.revision - 1) then err (resync r x.revision) else ok (newer r l))
          e)

  oldest_revision :
      (s : MemoryStore V) (x : Event V) (es : List (Event V))
      → IsRecorded s.history_limit s.revision s.history
      → s.history ≡ x ∷ es
      → x.revision ≡ s.revision - length s.history + 1
  oldest_revision s x es h e =
      let run : IsConsecutive (s.revision - length s.history) (x ∷ es) =
        subst (IsConsecutive (s.revision - length s.history)) e h.run in
      omega (arith, run.0)

  abbrev nonempty :
      (es : List (Event V))
      → 0 < length es
      → (x : Event V) × (rest : List (Event V)) × (es ≡ x ∷ rest)
  nonempty [] h = absurd (omega arith)
  nonempty (x ∷ es) h = (x, es, refl)

  -- A watcher that resumes from a revision within the history that is kept, which is not empty and
  -- has no gap up to the revision, gets every later event, one for each revision, in order.
  pub events_since_complete :
      (r : ℕ) (s : MemoryStore V)
      → IsRecorded s.history_limit s.revision s.history
      → r ≤ s.revision
      → 0 < length s.history
      → s.revision ≤ r + length s.history
      → (events_since r s ≡ ok (newer r s.history))
        × IsConsecutive r (newer r s.history)
        × (length (newer r s.history) ≡ s.revision - r)
  events_since_complete r s h old some_kept kept =
      let (x, es, e) = nonempty s.history some_kept in
      let at = oldest_revision s x es h e in
      let (run, all) = newer-IsConsecutive s.history_limit s.revision r s.history h old kept in
      let answer : events_since r s ≡ ok (newer r s.history) =
        rw (events_since-cons r s x es e) (ground (arith, at)) in
      (answer, run, all)

  -- A watcher that resumes from an older revision than such a history is told to list again, with
  -- the oldest revision that is kept.
  pub events_since_gap :
      (r : ℕ) (s : MemoryStore V)
      → IsRecorded s.history_limit s.revision s.history
      → 0 < length s.history
      → r + length s.history < s.revision
      → events_since r s ≡ err (resync r (s.revision - length s.history + 1))
  events_since_gap r s h some_kept lost =
      let (x, es, e) = nonempty s.history some_kept in
      let at = oldest_revision s x es h e in rw (events_since-cons r s x es e) (ground (arith, at))
