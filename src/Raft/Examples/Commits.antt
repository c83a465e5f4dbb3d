-- ===== src/Raft/Examples/Commits.antt =====
-- A leader's commit index and what a node applies, at small logs.
use container_platform.Prelude.{
  ℕ, ◌≤◌, max, String, ◌≡◌, refl, false, none, some, List, [], ◌∷◌, arith, take,
}
use container_platform.Prelude.Dict
use container_platform.Raft.Log
use container_platform.Raft.Log.{LogEntry, RaftLog, last_index, last_term, term_at, entries_from}
use container_platform.Raft.Node.{RaftNode, leader, quorum}
use container_platform.Raft.Node.Replication.{
  advance_commit, scan_commit, is_committable, count_at_least,
}
use container_platform.Raft.Node.Apply.{apply_range, apply_committed, finish_apply}
use container_platform.Raft.Node.Committing.{
  reaching, IsMajority, advance_commit-quorum, advance_commit_most,
}
use container_platform.Raft.Node.Applying.{apply_list, apply_committed_lem}

abbrev entry : ℕ → ℕ → String → LogEntry
entry term index command = record { term = term; index = index; command = command }

-- The leader of term 2 in a cluster of three; one peer has its third entry.
abbrev leading : RaftNode
leading = record {
  node_id = "n1";
  peers = "n2" ∷ "n3" ∷ [];
  ps = record { term = 2; voted_for = some "n1"; durable = false; file = none };
  log = record {
    entries = entry 1 1 "a" ∷ entry 2 2 "b" ∷ entry 2 3 "c" ∷ entry 2 4 "d" ∷ [];
    snapshot_last_index = 0;
    snapshot_last_term = 0;
    durable = false;
    file = [];
  };
  role = leader;
  leader_id = some "n1";
  commit_index = 1;
  last_applied = 0;
  next_index = [];
  match_index = ("n2", 3) ∷ ("n3", 0) ∷ ("n1", 4) ∷ [];
  last_contact = 0;
  election_timeout = 150;
}

program : Unit {0}
unfolding advance_commit scan_commit is_committable count_at_least quorum Dict.values last_index
    term_at Log.get apply_committed finish_apply
program = tt

leading_commit : (advance_commit 2 leading).commit_index ≡ 3
unfolding program
leading_commit = refl

advance_commit-quorum_example :
    (term_at (advance_commit 2 leading).commit_index leading.log ≡ 2)
    × IsMajority (reaching (advance_commit 2 leading).commit_index leading.match_index) leading
advance_commit-quorum_example = advance_commit-quorum 2 leading refl (omega (arith, leading_commit))

advance_commit_most_example :
    (1 ≤ (advance_commit 2 leading).commit_index)
    × ((advance_commit 2 leading).commit_index ≤ max 1 (last_index leading.log))
    × ((j : ℕ)
        → j ≤ last_index leading.log
        → term_at j leading.log ≡ 2
        → IsMajority (reaching j leading.match_index) leading
        → j ≤ (advance_commit 2 leading).commit_index)
advance_commit_most_example = advance_commit_most 2 leading

leading_last : last_index leading.log ≡ 4
unfolding program
leading_last = refl

-- The state machine that writes down the indices that it is given, the last one first.
abbrev note : LogEntry → List ℕ → List ℕ
note e s = e.index ∷ s

abbrev committed : RaftNode
committed = record leading { commit_index = 3; last_applied = 1 }

noted : apply_committed note committed (1 ∷ []) ≡ 3 ∷ 2 ∷ 1 ∷ []
unfolding program
noted = refl

apply_committed_lem_example :
    apply_committed note committed (1 ∷ [])
    ≡ apply_list note (take 2 (entries_from 2 committed.log)) (1 ∷ [])
apply_committed_lem_example =
    apply_committed_lem note committed (1 ∷ []) (omega arith) (omega arith)
      (omega (arith, leading_last))

first_applied : apply_range note 1 1 committed.log [] ≡ 1 ∷ []
unfolding program
first_applied = refl
