-- ===== src/Raft/Log.antt =====
-- raft/log.py: the replicated log in memory, and the file that each change of it is written to.
-- A line of the file is the value that `json.loads` gives for it. A file that is not there is the
-- empty one: `_load` reads nothing from either. Terms and indices are natural numbers.
pub mod Contiguous
pub mod Indices
pub mod Durability
use container_platform.Prelude.{
  ℕ, zero, suc, ◌+◌, ◌-◌, String, Option, none, some, Bool, true, false, List, [], ◌∷◌, ◌++◌, map,
  length, get_elem?, take, drop, leb, ◌==◌, if◌then◌else◌,
}

pub record LogEntry : Type 0 where
  pub term : ℕ
  pub index : ℕ
  pub command : String

pub data Line : Type 0 where
  meta : ℕ → ℕ → Line
  row : LogEntry → Line

-- `durable` says that a path was given.
pub record RaftLog : Type 0 where
  pub entries : List LogEntry
  pub snapshot_last_index : ℕ
  pub snapshot_last_term : ℕ
  pub durable : Bool
  pub file : List Line

-- `LogEntry.from_dict` raises on a line of another form.
from_rows : List Line → Option (List LogEntry)
from_rows [] = some []
from_rows (meta i t ∷ lines) = none
from_rows (row e ∷ lines) = elim (from_rows lines) [ none ↦ none | some es ↦ some (e ∷ es) ]

with_entries : ℕ → ℕ → List Line → Option (List LogEntry) → Option RaftLog
with_entries i t file none = none
with_entries i t file (some es) = some (record {
  entries = es;
  snapshot_last_index = i;
  snapshot_last_term = t;
  durable = true;
  file = file;
})

-- `_load`; `none` is an exception.
unfoldable pub load : List Line → Option RaftLog
unfolding from_rows with_entries
load [] = with_entries 0 0 [] (some [])
load (meta i t ∷ lines) = with_entries i t (meta i t ∷ lines) (from_rows lines)
load (row e ∷ lines) = with_entries 0 0 (row e ∷ lines) (from_rows (row e ∷ lines))

-- The constructor, with and without a path.
unfoldable pub open_log : Bool → List Line → Option RaftLog
unfolding load
open_log true file = load file
open_log false file = some (record {
  entries = [];
  snapshot_last_index = 0;
  snapshot_last_term = 0;
  durable = false;
  file = [];
})

persist_entry : LogEntry → RaftLog → RaftLog
persist_entry e l = if l.durable then record l { file = l.file ++ row e ∷ [] } else l

rewrite : RaftLog → RaftLog
rewrite l =
    if l.durable
    then record l { file = meta l.snapshot_last_index l.snapshot_last_term ∷ map row l.entries }
    else l

unfoldable pub append : LogEntry → RaftLog → RaftLog
unfolding persist_entry
append e l = persist_entry e (record l { entries = l.entries ++ e ∷ [] })

pub persist_all : List LogEntry → RaftLog → RaftLog
unfolding persist_entry
persist_all [] l = l
persist_all (e ∷ es) l = persist_all es (persist_entry e l)

unfoldable pub append_all : List LogEntry → RaftLog → RaftLog
unfolding persist_all
append_all es l = persist_all es (record l { entries = l.entries ++ es })

-- `_get`: the test on `pos` is made before the subtraction, which stops at zero here.
unfoldable pub get : ℕ → RaftLog → Option LogEntry
get index l =
    if leb index l.snapshot_last_index
    then none
    else get_elem? l.entries (index - l.snapshot_last_index - 1)

last : ℕ → (LogEntry → ℕ) → List LogEntry → ℕ
last d f [] = d
last d f (e ∷ es) = last (f e) f es

unfoldable pub last_index : RaftLog → ℕ
unfolding last
last_index l = last l.snapshot_last_index (λ e. e.index) l.entries

unfoldable pub last_term : RaftLog → ℕ
unfolding last
last_term l = last l.snapshot_last_term (λ e. e.term) l.entries

term_of : Option LogEntry → ℕ
term_of none = 0
term_of (some e) = e.term

unfoldable pub term_at : ℕ → RaftLog → ℕ
unfolding term_of
term_at index l =
    if index == 0
    then 0
    else if leb index l.snapshot_last_index
    then l.snapshot_last_term
    else term_of (get index l)

-- `idx` below zero is set to zero, as the subtraction does here.
unfoldable pub entries_from : ℕ → RaftLog → List LogEntry
entries_from start l = drop (start - l.snapshot_last_index - 1) l.entries

unfoldable pub truncate_from : ℕ → RaftLog → RaftLog
unfolding rewrite
truncate_from index l =
    rewrite (record l { entries = take (index - l.snapshot_last_index - 1) l.entries })

-- `entries[cut:]`: a negative `cut` counts from the end.
cut_entries : ℕ → ℕ → List LogEntry → List LogEntry
cut_entries offset last_index es =
    if leb offset last_index
    then drop (last_index - offset) es
    else drop (length es - (offset - last_index)) es

unfoldable pub snapshot : ℕ → ℕ → RaftLog → RaftLog
unfolding rewrite cut_entries
snapshot last_index last_term l = rewrite (record l {
  entries = cut_entries l.snapshot_last_index last_index l.entries;
  snapshot_last_index = last_index;
  snapshot_last_term = last_term;
})

unfoldable pub size : RaftLog → ℕ
size l = length l.entries
