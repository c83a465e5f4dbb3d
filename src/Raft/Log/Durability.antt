-- ===== src/Raft/Log/Durability.antt =====
-- The file of log.py: after every operation, loading the file gives the log in memory back.
use container_platform.Prelude.{
  ℕ, ◌≡◌, refl, ap, ◌∙◌, ◌⊎◌, inl, inr, true, some, List, [], ◌∷◌, ◌++◌, map, append-nil,
  append_assoc, arith, Option-cases,
}
use container_platform.Raft.Log.{
  LogEntry, Line, meta, row, RaftLog, append, append_all, truncate_from, snapshot, persist_entry,
  persist_all, load, open_log, from_rows, with_entries, rewrite,
}
use container_platform.Raft.Log.Indices.{
  SameLog, append-SameLog, append_all-SameLog, truncate_from-SameLog,
}

-- What the file of a durable log holds: its entries, under a first line about the snapshot unless
-- there has been none.
abbrev pub IsSynced : RaftLog → Type 0
IsSynced l =
    (l.file ≡ meta l.snapshot_last_index l.snapshot_last_term ∷ map row l.entries)
    ⊎ ((l.file ≡ map row l.entries) × (l.snapshot_last_index ≡ 0) × (l.snapshot_last_term ≡ 0))

from_rows-map : (es : List LogEntry) → from_rows (map row es) ≡ some es
unfolding from_rows
from_rows-map [] = refl
from_rows-map (e ∷ es) = ground (arith, from_rows-map es)

load-rows : (es : List LogEntry) → load (map row es) ≡ with_entries 0 0 (map row es) (some es)
unfolding load
load-rows [] = refl
load-rows (e ∷ es) = ground (arith, from_rows-map es)

load-IsSynced : (l : RaftLog) → l.durable ≡ true → IsSynced l → load l.file ≡ some l
load-IsSynced l d (inl h) =
    rw h (unfold load in rw (from_rows-map l.entries) (unfold load in ground arith))
load-IsSynced l d (inr h) = rw (h.0, load-rows l.entries) (unfold load in ground arith)

map-append_row : (es fs : List LogEntry) → map row (es ++ fs) ≡ map row es ++ map row fs
map-append_row [] fs = refl
map-append_row (e ∷ es) fs = ap (λ l. row e ∷ l) (map-append_row es fs)

file-persist_entry :
    (e : LogEntry) (l : RaftLog)
    → l.durable ≡ true
    → (persist_entry e l).file ≡ l.file ++ row e ∷ []
unfolding persist_entry
file-persist_entry e l d = ground arith

file-persist_all :
    (es : List LogEntry) (l : RaftLog)
    → l.durable ≡ true
    → (persist_all es l).file ≡ l.file ++ map row es
unfolding persist_all
file-persist_all [] l d = rw append-nil
file-persist_all (e ∷ es) l d =
    ground (
      arith,
      file-persist_all es (persist_entry e l),
      append_assoc l.file (row e ∷ []) (map row es),
    )

-- What a file holds that lines are appended to.
IsSynced-extended :
    (l k : RaftLog) (es : List LogEntry)
    → SameLog k (record l { entries = l.entries ++ es })
    → k.file ≡ l.file ++ map row es
    → IsSynced l
    → IsSynced k
IsSynced-extended l k es same grown (inl h) = inl (
    cc (
      map-append_row l.entries es,
      same.entries,
      same.snapshot_last_index,
      same.snapshot_last_term,
    ))
IsSynced-extended l k es same grown (inr h) = inr (
  cc (map-append_row l.entries es, same.entries),
  cc same.snapshot_last_index,
  cc same.snapshot_last_term,
)

append_all-IsSynced :
    (es : List LogEntry) (l : RaftLog) → l.durable ≡ true → IsSynced l → IsSynced (append_all es l)
append_all-IsSynced es l d h =
    IsSynced-extended l (append_all es l) es (append_all-SameLog es l)
      (unfold append_all in file-persist_all es (record l { entries = l.entries ++ es }) d) h

append-IsSynced :
    (e : LogEntry) (l : RaftLog) → l.durable ≡ true → IsSynced l → IsSynced (append e l)
append-IsSynced e l d h =
    IsSynced-extended l (append e l) (e ∷ []) (append-SameLog e l)
      (unfold append in file-persist_entry e (record l { entries = l.entries ++ e ∷ [] }) d) h

rewrite-IsSynced : (l : RaftLog) → l.durable ≡ true → IsSynced (rewrite l)
unfolding rewrite
rewrite-IsSynced l d = rw d (inl refl)

rows_of_from_rows :
    (lines : List Line) (es : List LogEntry) → from_rows lines ≡ some es → lines ≡ map row es
unfolding from_rows
rows_of_from_rows [] [] h = refl
rows_of_from_rows [] (e ∷ es) h = cc
rows_of_from_rows (meta i t ∷ lines) es h = cc
rows_of_from_rows (row e ∷ lines) es h = elim (Option-cases (from_rows lines)) [
  | inl bad ↦ ground arith
  | inr (fs, good) ↦
      let q : some (e ∷ fs) ≡ some es = ground arith in
      let rest = rows_of_from_rows lines fs good in cc
]

-- The four changes of a log.
pub data Change : Type 0 where
  appended : LogEntry → Change
  appended_all : List LogEntry → Change
  truncated : ℕ → Change
  cut_off : ℕ → ℕ → Change

unfoldable pub change : Change → RaftLog → RaftLog
change (appended e) l = append e l
change (appended_all es) l = append_all es l
change (truncated i) l = truncate_from i l
change (cut_off i t) l = snapshot i t l

unfoldable pub changes : List Change → RaftLog → RaftLog
unfolding change
changes [] l = l
changes (c ∷ cs) l = changes cs (change c l)

record IsDurable (l : RaftLog) : Type 0 where
  durable : l.durable ≡ true
  synced : IsSynced l

change-IsDurable : (c : Change) (l : RaftLog) → IsDurable l → IsDurable (change c l)
unfolding change
change-IsDurable (appended e) l h = record {
  durable = (append-SameLog e l).durable ∙ h.durable;
  synced = append-IsSynced e l h.durable h.synced;
}
change-IsDurable (appended_all es) l h = record {
  durable = (append_all-SameLog es l).durable ∙ h.durable;
  synced = append_all-IsSynced es l h.durable h.synced;
}
change-IsDurable (truncated i) l h = record {
  durable = (truncate_from-SameLog i l).durable ∙ h.durable;
  synced = unfold truncate_from in rewrite-IsSynced _ h.durable;
}
change-IsDurable (cut_off i t) l h = record {
  durable = unfold snapshot in ground (arith, h.durable);
  synced = unfold snapshot in rewrite-IsSynced _ h.durable;
}

changes-IsDurable : (cs : List Change) (l : RaftLog) → IsDurable l → IsDurable (changes cs l)
unfolding changes
changes-IsDurable [] l h = h
changes-IsDurable (c ∷ cs) l h = changes-IsDurable cs (change c l) (change-IsDurable c l h)

load-IsDurable : (file : List Line) (l : RaftLog) → load file ≡ some l → IsDurable l
unfolding load
load-IsDurable [] l h = record { durable = ground arith; synced = inr (ground arith) }
load-IsDurable (meta i t ∷ lines) l h = elim (Option-cases (from_rows lines)) [
  | inl bad ↦ ground arith
  | inr (es, good) ↦
      let q = rows_of_from_rows lines es good in
      record { durable = ground arith; synced = inl (ground arith) }
]
load-IsDurable (row e ∷ lines) l h = elim (Option-cases (from_rows (row e ∷ lines))) [
  | inl bad ↦ ground arith
  | inr (es, good) ↦
      let q = rows_of_from_rows (row e ∷ lines) es good in
      record { durable = ground arith; synced = inr (ground arith) }
]

-- A log that was opened on a file and then changed in any way is what opening its file again
-- gives: a restart loses and invents nothing.
pub reopen-changes :
    (file : List Line) (l : RaftLog) (cs : List Change)
    → open_log true file ≡ some l
    → open_log true (changes cs l).file ≡ some (changes cs l)
reopen-changes file l cs h =
    let opened : load file ≡ some l = unfold open_log in h in
    let kept = changes-IsDurable cs l (load-IsDurable file l opened) in
    unfold open_log in load-IsSynced (changes cs l) kept.durable kept.synced
