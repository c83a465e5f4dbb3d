-- ===== src/Raft/Examples/Logs.antt =====
-- Logs, files and commands, and the theorems about them at these.
use container_platform.Prelude.{ℕ, String, ◌≡◌, refl, true, false, some, List, [], ◌∷◌}
use container_platform.Raft.Log
use container_platform.Raft.Log.{LogEntry, Line, meta, row, RaftLog, open_log, load, last_index}
use container_platform.Raft.Log.Durability.{
  Change, appended, appended_all, truncated, cut_off, change, changes, reopen-changes,
}

abbrev entry : ℕ → ℕ → String → LogEntry
entry term index command = record { term = term; index = index; command = command }

-- Five entries, as the tests of the source have them.
abbrev five : RaftLog
five = record {
  entries = entry 1 1 "a" ∷ entry 1 2 "b" ∷ entry 1 3 "c" ∷ entry 2 4 "d" ∷ entry 2 5 "e" ∷ [];
  snapshot_last_index = 0;
  snapshot_last_term = 0;
  durable = false;
  file = [];
}

five_last : last_index five ≡ 5
unfolding last_index
five_last = refl

five-get : Log.get 4 five ≡ some (entry 2 4 "d")
unfolding Log.get
five-get = refl

five_cut : Log.snapshot 3 1 five ≡ record five {
  entries = entry 2 4 "d" ∷ entry 2 5 "e" ∷ [];
  snapshot_last_index = 3;
  snapshot_last_term = 1;
}
unfolding Log.snapshot
five_cut = refl

abbrev stored : List Line
stored = meta 2 1 ∷ row (entry 1 3 "c") ∷ []

abbrev reopened : RaftLog
reopened = record {
  entries = entry 1 3 "c" ∷ [];
  snapshot_last_index = 2;
  snapshot_last_term = 1;
  durable = true;
  file = stored;
}

abbrev busy : List Change
busy =
    appended (entry 2 4 "d")
    ∷ appended_all (entry 2 5 "e" ∷ entry 2 6 "f" ∷ [])
    ∷ truncated 6
    ∷ cut_off 4 2
    ∷ []

reopen-changes_example : open_log true (changes busy reopened).file ≡ some (changes busy reopened)
reopen-changes_example = reopen-changes stored reopened busy (unfold open_log in refl)

busy_file : (changes busy reopened).file ≡ meta 4 2 ∷ row (entry 2 5 "e") ∷ []
unfolding changes change Log.append Log.append_all Log.truncate_from Log.snapshot
busy_file = refl
