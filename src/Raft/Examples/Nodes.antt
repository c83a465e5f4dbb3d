-- ===== src/Raft/Examples/Nodes.antt =====
-- Three nodes, votes, elections and requests, and the theorems about them at these.
use container_platform.Prelude.{
  ℕ, ◌+◌, ◌≤◌, String, ◌≡◌, refl, Bool, true, false, Option, none, some, List, [], ◌∷◌, arith,
}
use container_platform.Raft.Log
use container_platform.Raft.Log.{LogEntry, RaftLog, last_index, last_term, term_at}
use container_platform.Raft.Log.Contiguous.{IsWellFormed}
use container_platform.Raft.State.{set_term, increment_term, set_voted_for}
use container_platform.Raft.Node.{
  RaftNode, Moment, follower, VoteRequest, AppendRequest, handle_request_vote,
  handle_append_entries, merge_entries, quorum, reset_contact,
}
use container_platform.Raft.Node.Election.{start_election, begin_election, take_vote, become_leader}
use container_platform.Raft.Node.Steps.{here, next, receives, vote_once}
use container_platform.Raft.Node.Following.{append_entries_agrees, append_entries_keeps}

abbrev entry : ℕ → ℕ → String → LogEntry
entry term index command = record { term = term; index = index; command = command }

abbrev log_of : List LogEntry → RaftLog
log_of es = record {
  entries = es;
  snapshot_last_index = 0;
  snapshot_last_term = 0;
  durable = false;
  file = [];
}

abbrev at_ten : Moment
at_ten = record { now = 10; timeout = 200 }

abbrev pub node : List String → ℕ → List LogEntry → RaftNode
node peers term es = record {
  node_id = "n1";
  peers = peers;
  ps = record { term = term; voted_for = none; durable = false; file = none };
  log = log_of es;
  role = follower;
  leader_id = none;
  commit_index = 1;
  last_applied = 0;
  next_index = [];
  match_index = [];
  last_contact = 0;
  election_timeout = 150;
}

abbrev three : List String
three = "n2" ∷ "n3" ∷ []

-- A follower that has an entry more than the leader of term 2.
abbrev longer : RaftNode
longer = node three 1 (entry 1 1 "a" ∷ entry 1 2 "b" ∷ entry 1 3 "c" ∷ [])

abbrev ask : String → VoteRequest
ask c = record { term = 2; candidate_id = c; last_log_index = 3; last_log_term = 1 }

program : Unit {0}
unfolding handle_request_vote handle_append_entries Log.get Log.append_all Log.truncate_from
    last_index last_term term_at set_term set_voted_for increment_term merge_entries start_election
    begin_election take_vote become_leader reset_contact quorum
program = tt

asked : (handle_request_vote at_ten (ask "n2") longer).1.1 ≡ true
unfolding program
asked = refl

abbrev heartbeat : AppendRequest
heartbeat = record {
  term = 2;
  leader_id = "n2";
  prev_log_index = 2;
  prev_log_term = 1;
  entries = [];
  leader_commit = 2;
}

-- After the vote a heartbeat of the new leader comes, and then the same candidate asks again.
abbrev voted : RaftNode
voted = (handle_request_vote at_ten (ask "n2") longer).0

abbrev later : RaftNode
later = (handle_append_entries at_ten heartbeat voted).0

asked_again : (handle_request_vote at_ten (ask "n2") later).1.1 ≡ true
unfolding program
asked_again = refl

vote_once_example : ◌≡◌ {A = String} "n2" "n2"
vote_once_example =
    vote_once at_ten at_ten (ask "n2") (ask "n2") longer later
      (next here (receives at_ten heartbeat voted)) refl asked asked_again

other_refused : (handle_request_vote at_ten (ask "n3") later).1.1 ≡ false
unfolding program
other_refused = refl

-- The leader of term 2 sends an entry that takes the place of the third.
abbrev sent : AppendRequest
sent = record heartbeat { entries = entry 2 3 "d" ∷ entry 2 4 "e" ∷ [] }

sent_accepted : (handle_append_entries at_ten sent longer).1.success ≡ true
unfolding program
sent_accepted = refl

sent_log :
    (handle_append_entries at_ten sent longer).0.log.entries
    ≡ entry 1 1 "a" ∷ entry 1 2 "b" ∷ entry 2 3 "d" ∷ entry 2 4 "e" ∷ []
unfolding program
sent_log = refl

append_entries_agrees_example :
    (f : LogEntry) × (Log.get 4 (handle_append_entries at_ten sent longer).0.log ≡ some f)
    × (f.term ≡ 2)
    × (f.index ≡ 4)
append_entries_agrees_example =
    append_entries_agrees at_ten sent longer (omega arith) (omega arith) (omega arith) sent_accepted
      1 (entry 2 4 "e") refl

append_entries_keeps_example :
    (Log.get 2 (handle_append_entries at_ten sent longer).0.log ≡ some (entry 1 2 "b"))
    × IsWellFormed (handle_append_entries at_ten sent longer).0.log
    × (2 + 2 ≤ last_index (handle_append_entries at_ten sent longer).0.log)
unfolding Log.get
append_entries_keeps_example =
    append_entries_keeps at_ten sent longer (omega arith) (omega arith) (omega arith) sent_accepted
      2 (omega arith)

sent_last : last_index (handle_append_entries at_ten sent longer).0.log ≡ 4
unfolding program
sent_last = refl

heartbeat_accepted : (handle_append_entries at_ten heartbeat longer).1.success ≡ true
unfolding program
heartbeat_accepted = refl

longer_last : last_index longer.log ≡ 3
unfolding program
longer_last = refl

-- Of two answers one grants the vote.
abbrev answers : List (Option (ℕ × Bool))
answers = none ∷ some (2, true) ∷ []

elected : (start_election at_ten answers longer).1 ≡ true
unfolding program
elected = refl

-- Four nodes.
abbrev four : RaftNode
four = node ("n2" ∷ "n3" ∷ "n4" ∷ []) 1 []
