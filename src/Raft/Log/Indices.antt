-- ===== src/Raft/Log/Indices.antt =====
-- What each operation of log.py does to the log, told by `last_index` and by `get` at every index.
use container_platform.Prelude.{
  ℕ, ◌+◌, ◌-◌, ◌≤◌, ◌<◌, ◌≡◌, refl, ◌⊎◌, inl, inr, false, none, some, List, [], ◌∷◌, ◌++◌, arith,
  length, get_elem?, take, drop, ltb, leb, if◌then◌else◌, Bool-cases, take-append-drop, length-drop,
  get_elem?-append, get_elem?-append_left, get_elem?-drop, get_elem?-take, get_elem?-none,
  get_elem?-some, get_elem?-take-none,
}
use container_platform.Raft.Log.{
  LogEntry, RaftLog, append, append_all, get, last_index, entries_from, truncate_from, snapshot,
  persist_entry, persist_all,
}
use container_platform.Raft.Log.Contiguous.{
  IsContiguous, IsWellFormed, IsContiguous-append, IsContiguous-take, IsContiguous-drop,
  IsContiguous-get_elem?, last_index-IsWellFormed,
}

-- The two logs have the same entries and snapshot: they may differ in the file.
pub record SameLog (l k : RaftLog) : Type 0 where
  pub entries : l.entries ≡ k.entries
  pub snapshot_last_index : l.snapshot_last_index ≡ k.snapshot_last_index
  pub snapshot_last_term : l.snapshot_last_term ≡ k.snapshot_last_term
  pub durable : l.durable ≡ k.durable

pub persist_all-SameLog : (es : List LogEntry) (l : RaftLog) → SameLog (persist_all es l) l
unfolding persist_all
persist_all-SameLog [] l = record {
  entries = refl;
  snapshot_last_index = refl;
  snapshot_last_term = refl;
  durable = refl;
}
persist_all-SameLog (e ∷ es) l =
    let ih = persist_all-SameLog es (persist_entry e l) in ground (arith, ih)

pub append-SameLog :
    (e : LogEntry) (l : RaftLog) → SameLog (append e l) (record l { entries = l.entries ++ e ∷ [] })
unfolding append
append-SameLog e l = ground arith

pub append_all-SameLog :
    (es : List LogEntry) (l : RaftLog)
    → SameLog (append_all es l) (record l { entries = l.entries ++ es })
unfolding append_all
append_all-SameLog es l = persist_all-SameLog es (record l { entries = l.entries ++ es })

pub truncate_from-SameLog :
    (index : ℕ) (l : RaftLog)
    → SameLog
        (truncate_from index l)
        (record l { entries = take (index - l.snapshot_last_index - 1) l.entries })
unfolding truncate_from
truncate_from-SameLog index l = ground arith

pub get-SameLog : (i : ℕ) {l k : RaftLog} → SameLog l k → get i l ≡ get i k
unfolding get
get-SameLog i h = rw (h.entries, h.snapshot_last_index)

pub IsWellFormed-SameLog : {l k : RaftLog} → SameLog l k → IsWellFormed k → IsWellFormed l
IsWellFormed-SameLog h w = rw (h.entries, h.snapshot_last_index) w

-- The entry at an index, in a well-formed log: it is there exactly for the indices above the
-- snapshot up to the last one, and it carries its index.
pub get_inside :
    (l : RaftLog) (i : ℕ)
    → IsWellFormed l
    → l.snapshot_last_index < i
    → i ≤ last_index l
    → (e : LogEntry) × (get i l ≡ some e) × (e.index ≡ i)
unfolding get
get_inside l i wf h k =
    let (e, found) =
      get_elem?-some l.entries (i - l.snapshot_last_index - 1)
        (omega (arith, last_index-IsWellFormed l wf)) in
    (
      e,
      ground arith,
      omega (arith, IsContiguous-get_elem? l.snapshot_last_index l.entries _ wf found),
    )

pub index-get :
    (l : RaftLog) (i : ℕ) (e : LogEntry) → IsWellFormed l → get i l ≡ some e → e.index ≡ i
index-get l i e wf h =
    let (low, found) = position h in
    omega (arith, IsContiguous-get_elem? l.snapshot_last_index l.entries _ wf found)
  where
    position :
        get i l ≡ some e
        → (l.snapshot_last_index < i)
          × (get_elem? l.entries (i - l.snapshot_last_index - 1) ≡ some e)
    position = unfold get in λ g. ground arith

pub last_index-SameLog : {l k : RaftLog} → SameLog l k → last_index l ≡ last_index k
unfolding last_index
last_index-SameLog h = rw (h.entries, h.snapshot_last_index)

pub get_outside :
    (l : RaftLog) (i : ℕ)
    → IsWellFormed l
    → (i ≤ l.snapshot_last_index) ⊎ (last_index l < i)
    → get i l ≡ none
unfolding get
get_outside l i wf (inl h) = ground arith
get_outside l i wf (inr h) =
    ground (
      arith,
      last_index-IsWellFormed l wf,
      get_elem?-none l.entries (i - l.snapshot_last_index - 1),
    )

-- What a truncation leaves: the entries below the index, each where it was.
pub get-truncate_from :
    (l : RaftLog) (i j : ℕ) → get j (truncate_from i l) ≡ (if ltb j i then get j l else none)
get-truncate_from l i j = rw (get-SameLog j (truncate_from-SameLog i l)) (
    unfold get in
    elim (Bool-cases (ltb j i)) [
      | inl below ↦ rw below (
          ground (
            arith,
            get_elem?-take l.entries (i - l.snapshot_last_index - 1)
                (j - l.snapshot_last_index - 1),
          ))
      | inr above ↦ rw above (
          ground (
            arith,
            get_elem?-take-none l.entries (i - l.snapshot_last_index - 1)
                (j - l.snapshot_last_index - 1),
          ))
    ])

pub truncate_from-IsWellFormed :
    (l : RaftLog) (i : ℕ) → IsWellFormed l → IsWellFormed (truncate_from i l)
truncate_from-IsWellFormed l i wf =
    IsWellFormed-SameLog (truncate_from-SameLog i l) (IsContiguous-take _ _ l.entries wf)

-- Entries that follow the last index are appended: the log stays well-formed, the old entries
-- stay, and the new ones stand above them in their order.
pub append_all-IsWellFormed :
    (l : RaftLog) (es : List LogEntry)
    → IsWellFormed l
    → IsContiguous (last_index l) es
    → IsWellFormed (append_all es l)
append_all-IsWellFormed l es wf next =
    IsWellFormed-SameLog (append_all-SameLog es l)
      (IsContiguous-append _ l.entries es wf (rw (last_index-IsWellFormed l wf) at next))

pub append-IsWellFormed :
    (l : RaftLog) (e : LogEntry)
    → IsWellFormed l
    → e.index ≡ last_index l + 1
    → IsWellFormed (append e l)
append-IsWellFormed l e wf next =
    IsWellFormed-SameLog (append-SameLog e l) (
      IsContiguous-append _ l.entries (e ∷ []) wf (omega (arith, last_index-IsWellFormed l wf), tt))

pub get-append_all :
    (l : RaftLog) (es : List LogEntry) (j : ℕ)
    → IsWellFormed l
    → get j (append_all es l)
      ≡ (if leb j (last_index l) then get j l else get_elem? es (j - last_index l - 1))
get-append_all l es j wf =
    rw (get-SameLog j (append_all-SameLog es l), last_index-IsWellFormed l wf)
      (unfold get in
        elim (Bool-cases (leb j (l.snapshot_last_index + length l.entries))) [
          | inl old ↦
              rw old
                (ground (arith, get_elem?-append_left l.entries es (j - l.snapshot_last_index - 1)))
          | inr new ↦
              let q : j - l.snapshot_last_index - 1
                  ≡ length l.entries + (j - (l.snapshot_last_index + length l.entries) - 1) =
                ground arith in
              let above : leb j l.snapshot_last_index ≡ false = ground arith in
              rw (new, above, q) (get_elem?-append l.entries es _)
        ])

module _ (l : RaftLog) (n t : ℕ) (wf : IsWellFormed l) (low : l.snapshot_last_index ≤ n)
    (high : n ≤ last_index l) where
  abbrev cut : ℕ
  cut = n - l.snapshot_last_index

  snapshot-SameLog :
      SameLog
        (snapshot n t l)
        (record l { entries = drop cut l.entries; snapshot_last_index = n; snapshot_last_term = t })
  unfolding snapshot
  snapshot-SameLog = ground arith

  -- A snapshot within the log keeps it well-formed, keeps its last index, and keeps exactly the
  -- entries above the snapshot.
  pub snapshot-IsWellFormed : IsWellFormed (snapshot n t l)
  snapshot-IsWellFormed =
      let q : l.snapshot_last_index + cut ≡ n = omega arith in
      IsWellFormed-SameLog snapshot-SameLog (
        rw q at (
          IsContiguous-drop l.snapshot_last_index cut l.entries
            (omega (arith, last_index-IsWellFormed l wf)) wf))

  pub last_index-snapshot : last_index (snapshot n t l) ≡ last_index l
  last_index-snapshot =
      rw
        (
          last_index-IsWellFormed (snapshot n t l) snapshot-IsWellFormed,
          snapshot-SameLog.entries,
          snapshot-SameLog.snapshot_last_index,
        )
        (omega (arith, last_index-IsWellFormed l wf, length-drop cut l.entries))

  pub get-snapshot : (j : ℕ) → get j (snapshot n t l) ≡ (if leb j n then none else get j l)
  get-snapshot j = rw (get-SameLog j snapshot-SameLog) (
      unfold get in
      elim (Bool-cases (leb j n)) [
        | inl gone ↦ rw gone
        | inr kept ↦
            let q : j - l.snapshot_last_index - 1 ≡ cut + (j - n - 1) = ground arith in
            let above : leb j l.snapshot_last_index ≡ false = ground arith in
            rw (kept, above, q) (get_elem?-drop l.entries cut (j - n - 1))
      ])

-- What is sent from an index on and what a truncation at that index keeps are the whole log.
pub truncate_from-append-entries_from :
    (l : RaftLog) (i : ℕ) → (truncate_from i l).entries ++ entries_from i l ≡ l.entries
unfolding entries_from
truncate_from-append-entries_from l i =
    rw (truncate_from-SameLog i l).entries (take-append-drop _ l.entries)

pub get_elem?-entries_from :
    (l : RaftLog) (i k : ℕ)
    → l.snapshot_last_index < i
    → get_elem? (entries_from i l) k ≡ get (i + k) l
unfolding entries_from get
get_elem?-entries_from l i k h =
    let q : i + k - l.snapshot_last_index - 1 ≡ i - l.snapshot_last_index - 1 + k = omega arith in
    let above : leb (i + k) l.snapshot_last_index ≡ false = ground arith in
    rw (above, q) (get_elem?-drop l.entries _ k)
