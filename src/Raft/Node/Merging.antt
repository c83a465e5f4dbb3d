-- ===== src/Raft/Node/Merging.antt =====
-- The loop of `handle_append_entries` over the sent entries, against a description of it on lists.
use container_platform.Prelude.{
  ℕ, zero, suc, ◌+◌, ◌-◌, ◌≤◌, ◌≡◌, refl, sym, ap, ◌∙◌, inl, inr, true, false, none, some, List, [],
  ◌∷◌, ◌++◌, append-nil, append_assoc, arith, length, get_elem?, leb, ◌==◌, if◌then◌else◌, ==_iff,
  Bool-cases, length-append, take-append, get_elem?-append,
}
use container_platform.Raft.Log
use container_platform.Raft.Log.{LogEntry, RaftLog, last_index}
use container_platform.Raft.Log.Contiguous.{IsContiguous}
use container_platform.Raft.Log.Indices.{SameLog, append_all-SameLog, truncate_from-SameLog}
use container_platform.Raft.Node.{merge_entries}

-- What becomes of the entries behind the agreed index: those stay that have the sent terms, and
-- at the first other term, or at the end, the sent entries take their place.
pub merged : List LogEntry → List LogEntry → List LogEntry
merged tail [] = tail
merged [] (e ∷ es) = e ∷ es
merged (t ∷ ts) (e ∷ es) = if t.term == e.term then t ∷ merged ts es else e ∷ es

SameLog-trans : {a b c : RaftLog} → SameLog a b → SameLog b c → SameLog a c
SameLog-trans p q = record {
  entries = p.entries ∙ q.entries;
  snapshot_last_index = p.snapshot_last_index ∙ q.snapshot_last_index;
  snapshot_last_term = p.snapshot_last_term ∙ q.snapshot_last_term;
  durable = p.durable ∙ q.durable;
}

-- Entries of the log, in two parts, and the index at which the second part begins.
module _ (l : RaftLog) (at : ℕ) (pre tail : List LogEntry) (parts : l.entries ≡ pre ++ tail)
    (begins : at ≡ l.snapshot_last_index + 1 + length pre) where
  get_head : Log.get at l ≡ get_elem? tail 0
  unfolding Log.get
  get_head =
      let q : at - l.snapshot_last_index - 1 ≡ length pre + 0 = omega arith in
      let above : leb at l.snapshot_last_index ≡ false = ground arith in
      rw (above, q, parts) (get_elem?-append pre tail 0)

  truncated : SameLog (Log.truncate_from at l) (record l { entries = pre })
  truncated =
      let q : at - l.snapshot_last_index - 1 ≡ length pre = omega arith in
      let t = truncate_from-SameLog at l in
      record {
        entries = t.entries ∙ rw (q, parts) (take-append pre tail);
        snapshot_last_index = t.snapshot_last_index;
        snapshot_last_term = t.snapshot_last_term;
        durable = t.durable;
      }

  replaced :
      (es : List LogEntry)
      → SameLog (Log.append_all es (Log.truncate_from at l)) (record l { entries = pre ++ es })
  replaced es =
      let a = append_all-SameLog es (Log.truncate_from at l) in
      record {
        entries = a.entries ∙ ap (λ p. p ++ es) truncated.entries;
        snapshot_last_index = a.snapshot_last_index ∙ truncated.snapshot_last_index;
        snapshot_last_term = a.snapshot_last_term ∙ truncated.snapshot_last_term;
        durable = a.durable ∙ truncated.durable;
      }

module _ (at : ℕ) (e : LogEntry) (es : List LogEntry) (l : RaftLog) where
  merge_at_end : Log.get at l ≡ none → merge_entries at (e ∷ es) l ≡ Log.append_all (e ∷ es) l
  unfolding merge_entries
  merge_at_end h = rw (h, merge_entries)

  merge_same :
      (t : LogEntry)
      → Log.get at l ≡ some t
      → (t.term == e.term) ≡ true
      → merge_entries at (e ∷ es) l ≡ merge_entries (suc at) es l
  unfolding merge_entries
  merge_same t h same = ground arith

  merge_other :
      (t : LogEntry)
      → Log.get at l ≡ some t
      → (t.term == e.term) ≡ false
      → merge_entries at (e ∷ es) l ≡ Log.append_all (e ∷ es) (Log.truncate_from at l)
  unfolding merge_entries
  merge_other t h other = ground arith

merged-nil : (es : List LogEntry) → merged [] es ≡ es
unfolding merged
merged-nil [] = refl
merged-nil (e ∷ es) = refl

merged-same :
    (t e : LogEntry) (ts es : List LogEntry)
    → (t.term == e.term) ≡ true
    → merged (t ∷ ts) (e ∷ es) ≡ t ∷ merged ts es
unfolding merged
merged-same t e ts es h = rw h

merged-other :
    (t e : LogEntry) (ts es : List LogEntry)
    → (t.term == e.term) ≡ false
    → merged (t ∷ ts) (e ∷ es) ≡ e ∷ es
unfolding merged
merged-other t e ts es h = rw h

-- From the index of its first entry on, the loop leaves what `merged` says, and nothing else
-- changes.
pub merge_entries-SameLog :
    (at : ℕ) (es : List LogEntry) (l : RaftLog) (pre tail : List LogEntry)
    → l.entries ≡ pre ++ tail
    → at ≡ l.snapshot_last_index + 1 + length pre
    → SameLog (merge_entries at es l) (record l { entries = pre ++ merged tail es })
merge_entries-SameLog at [] l pre tail parts begins =
    unfold merge_entries merged in
    record {
      entries = parts;
      snapshot_last_index = refl;
      snapshot_last_term = refl;
      durable = refl;
    }
merge_entries-SameLog at (e ∷ es) l pre [] parts begins =
    let p = append_all-SameLog (e ∷ es) l in
    let old : l.entries ≡ pre = parts ∙ append-nil pre in
    rw (merge_at_end at e es l (get_head l at pre [] parts begins), merged-nil (e ∷ es))
      (record {
        entries = p.entries ∙ ap (λ x. x ++ e ∷ es) old;
        snapshot_last_index = p.snapshot_last_index;
        snapshot_last_term = p.snapshot_last_term;
        durable = p.durable;
      })
merge_entries-SameLog at (e ∷ es) l pre (t ∷ ts) parts begins =
    let found = get_head l at pre (t ∷ ts) parts begins in
    let parts' : l.entries ≡ (pre ++ t ∷ []) ++ ts = parts ∙ sym (append_assoc pre (t ∷ []) ts) in
    let begins' : suc at ≡ l.snapshot_last_index + 1 + length (pre ++ t ∷ []) =
      omega (arith, length-append pre (t ∷ [])) in
    let rest = merge_entries-SameLog (suc at) es l (pre ++ t ∷ []) ts parts' begins' in
    elim (Bool-cases (t.term == e.term)) [
      | inl same ↦
          rw (merge_same at e es l t found same, merged-same t e ts es same)
            (rw (append_assoc pre (t ∷ []) (merged ts es)) at rest)
      | inr other ↦
          rw (merge_other at e es l t found other, merged-other t e ts es other)
            (replaced l at pre (t ∷ ts) parts begins (e ∷ es))
    ]

-- The sent terms stand where they were sent for.
pub merged_terms :
    (tail es : List LogEntry) (k : ℕ) (e : LogEntry)
    → get_elem? es k ≡ some e
    → (f : LogEntry) × (get_elem? (merged tail es) k ≡ some f) × (f.term ≡ e.term)
merged_terms tail [] k e h = cc
merged_terms [] (x ∷ es) k e h = unfold merged in (e, h, refl)
merged_terms (t ∷ ts) (x ∷ es) zero e h = elim (Bool-cases (t.term == x.term)) [
  | inl same ↦ rw (merged-same t x ts es same) (t, refl, ground arith)
  | inr other ↦ rw (merged-other t x ts es other) (x, refl, ground arith)
]
merged_terms (t ∷ ts) (x ∷ es) (suc k) e h =
    let rest = merged_terms ts es k e h in
    elim (Bool-cases (t.term == x.term)) [
      | inl same ↦ rw (merged-same t x ts es same) rest
      | inr other ↦ rw (merged-other t x ts es other) (e, h, refl)
    ]

-- The entries have the sent terms, as far as those go.
abbrev pub Agrees : List LogEntry → List LogEntry → Type 0
Agrees tail [] = Unit
Agrees [] (e ∷ es) = ⊥
Agrees (t ∷ ts) (e ∷ es) = (t.term ≡ e.term) × Agrees ts es

-- Entries that are there already are left alone, with what follows them.
pub merged_agreeing : (tail es : List LogEntry) → Agrees tail es → merged tail es ≡ tail
merged_agreeing tail [] h = unfold merged in refl
merged_agreeing [] (e ∷ es) h = absurd h
merged_agreeing (t ∷ ts) (e ∷ es) h =
    let rest = merged_agreeing ts es h.1 in
    rw (merged-same t e ts es ((==_iff t.term e.term).1 h.0)) (ap (λ x. t ∷ x) rest)

pub merged-IsContiguous :
    (offset : ℕ) (tail es : List LogEntry)
    → IsContiguous offset tail
    → IsContiguous offset es
    → IsContiguous offset (merged tail es)
merged-IsContiguous offset tail [] h k = unfold merged in h
merged-IsContiguous offset [] (e ∷ es) h k = unfold merged in k
merged-IsContiguous offset (t ∷ ts) (e ∷ es) h k =
    let rest = merged-IsContiguous (suc offset) ts es h.1 k.1 in
    elim (Bool-cases (t.term == e.term)) [
      | inl same ↦ rw (merged-same t e ts es same) (h.0, rest)
      | inr other ↦ rw (merged-other t e ts es other) k
    ]

pub length-merged : (tail es : List LogEntry) → length es ≤ length (merged tail es)
length-merged tail [] = omega arith
length-merged [] (e ∷ es) = unfold merged in omega arith
length-merged (t ∷ ts) (e ∷ es) =
    let rest = length-merged ts es in
    elim (Bool-cases (t.term == e.term)) [
      | inl same ↦ rw (merged-same t e ts es same) (omega (arith, rest))
      | inr other ↦ rw (merged-other t e ts es other) (omega arith)
    ]
