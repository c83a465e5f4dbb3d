-- ===== src/Raft/Examples/Clusters.antt =====
-- Three nodes, an election, a restart and a heartbeat.
use mathlib.Core.List.Perm
use container_platform.Prelude.{
  String, ◌≡◌, refl, true, false, Option, none, some, List, [], ◌∷◌, str_eq, if◌then◌else◌,
}
use container_platform.Raft.Log.{RaftLog, open_log, last_index, last_term}
use container_platform.Raft.State.{
  Saved, load_state, open_state, set_term, increment_term, set_voted_for,
}
use container_platform.Raft.Node.{
  Moment, leader, start_node, handle_request_vote, quorum, reset_contact, is_leader, VoteRequest,
}
use container_platform.Raft.Node.Election.{begin_election, take_vote, become_leader}
use container_platform.Raft.Cluster.{
  Cluster, Move, set, put_node, set_campaign, acts, votes, begins, asks, hears, leads, restarts,
  run, start_cluster,
}
use container_platform.Raft.Cluster.Leaders.{leader_unique}

program : Unit {0}
unfolding run start_cluster start_node handle_request_vote quorum reset_contact is_leader
    begin_election take_vote become_leader set_term increment_term set_voted_for last_index
    last_term open_state load_state set put_node set_campaign open_log
program = tt

abbrev now : Moment
now = record { now = 10; timeout = 200 }

abbrev peers : String → List String
peers s =
    if str_eq s "n1"
    then "n2" ∷ "n3" ∷ []
    else if str_eq s "n2"
    then "n1" ∷ "n3" ∷ []
    else "n1" ∷ "n2" ∷ []

-- One node has voted in term 3 before it was stopped.
abbrev files : String → Option Saved
files s = if str_eq s "n2" then some (record { term = some 3; voted_for = some "n3" }) else none

abbrev empty : String → RaftLog
empty s = record {
  entries = [];
  snapshot_last_index = 0;
  snapshot_last_term = 0;
  durable = true;
  file = [];
}

abbrev three_nodes : Cluster
three_nodes = start_cluster now peers files empty

-- The call to n2 is lost, and n3 grants its vote and stops.
abbrev election : List Move
election =
    begins "n1" now
    ∷ hears "n1" now false
    ∷ asks "n1" now
    ∷ restarts "n3" now
    ∷ hears "n1" now true
    ∷ leads "n1" now
    ∷ []

elected : ((run election three_nodes).nodes "n1").role ≡ leader
unfolding program
elected = refl

-- Then n2 asks for votes in the same term, which n3 has not forgotten.
abbrev rival : VoteRequest
rival = record { term = 1; candidate_id = "n2"; last_log_index = 0; last_log_term = 0 }

abbrev later : List Move
later = acts "n3" (votes now rival) ∷ []

refused : ((run later (run election three_nodes)).nodes "n3").ps.voted_for ≡ some "n1"
unfolding program
refused = refl

still : ((run later (run election three_nodes)).nodes "n1").role ≡ leader
unfolding program
still = refl

same_term :
    ((run election three_nodes).nodes "n1").ps.term
    ≡ ((run later (run election three_nodes)).nodes "n1").ps.term
unfolding program
same_term = refl

leader_unique_example : ◌≡◌ {A = String} "n1" "n1"
leader_unique_example =
    leader_unique now peers files empty election later "n1" "n1" Perm.rfl refl elected still
      same_term
