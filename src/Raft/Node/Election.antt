-- ===== src/Raft/Node/Election.antt =====
-- The election of raft/node.py: `_start_election` asks the peers one after the other, and lets go
-- of the lock while it waits for each answer. Other threads may run in between: the parts that
-- hold the lock are `begin_election`, `take_vote` and `become_leader`.
use container_platform.Prelude.Dict
use container_platform.Prelude.Dict.{Dict}
use container_platform.Prelude.{
  ℕ, ◌+◌, String, Bool, true, false, not, ◌&&◌, Option, none, some, List, [], ◌∷◌, ltb, leb, ◌==◌,
  if◌then◌else◌,
}
use container_platform.Raft.Log.{last_index, last_term}
use container_platform.Raft.State.{increment_term, set_voted_for}
use container_platform.Raft.Node.{
  RaftNode, Moment, candidate, leader, is_candidate, VoteRequest, reset_contact, step_down, quorum,
}

-- The first part: the candidate votes for itself in a new term. Its vote request is returned.
unfoldable pub begin_election : Moment → RaftNode → RaftNode × VoteRequest
begin_election m n = (
  reset_contact m (record n {
    role = candidate;
    ps = set_voted_for (some n.node_id) (increment_term n.ps).0;
    leader_id = none;
  }),
  record {
    term = (increment_term n.ps).1;
    candidate_id = n.node_id;
    last_log_index = last_index n.log;
    last_log_term = last_term n.log;
  },
)

-- Where the loop over the peers stands after an answer.
pub data Ballot : Type 0 where
  counting : ℕ → Ballot
  won : Ballot
  over : Ballot

-- The test that the election still runs: the term and the role are those that it began with.
abbrev pub still_running : ℕ → RaftNode → Bool
still_running new_term n = n.ps.term == new_term && is_candidate n.role

count_vote : Bool → ℕ → ℕ → Ballot
count_vote granted votes needed =
    if granted
    then (if leb needed (votes + 1) then won else counting (votes + 1))
    else counting votes

-- One round of the loop. An RPC that raised changes nothing.
unfoldable pub take_vote : Moment → ℕ → ℕ → ℕ → Option (ℕ × Bool) → RaftNode → RaftNode × Ballot
unfolding count_vote
take_vote m new_term needed votes none n = (n, counting votes)
take_vote m new_term needed votes (some (r_term, granted)) n =
    if not (still_running new_term n)
    then (n, over)
    else if ltb new_term r_term
    then (step_down m r_term n, over)
    else (n, count_vote granted votes needed)

set_indices : ℕ → List String → Dict ℕ → Dict ℕ
set_indices i [] d = d
set_indices i (p ∷ ps) d = set_indices i ps (Dict.insert p i d)

-- `_become_leader` up to its call of `_replicate`; the flag says whether that call is made.
unfoldable pub become_leader : Moment → ℕ → RaftNode → RaftNode × Bool
unfolding set_indices
become_leader m term n = if not (still_running term n) then (n, false) else (
  reset_contact m (record n {
    role = leader;
    leader_id = some n.node_id;
    next_index = set_indices (last_index n.log + 1) n.peers n.next_index;
    match_index = Dict.insert n.node_id (last_index n.log) (set_indices 0 n.peers n.match_index);
  }),
  true,
)

-- The loop with no other thread in between, over the answers of the peers in their order.
unfoldable pub count_votes :
    Moment → ℕ → ℕ → ℕ → List (Option (ℕ × Bool)) → RaftNode → RaftNode × Ballot
count_votes m new_term needed votes [] n = (n, counting votes)
count_votes m new_term needed votes (r ∷ rs) n =
    let (n', ballot) = take_vote m new_term needed votes r n in
    elim ballot [
      | counting v ↦ count_votes m new_term needed v rs n'
      | won ↦ (n', won)
      | over ↦ (n', over)
    ]

unfoldable pub conclude : Moment → ℕ → RaftNode → Ballot → RaftNode × Bool
conclude m term n won = become_leader m term n
conclude m term n _ = (n, false)

-- `_start_election` as a whole, undisturbed: one answer for each peer.
unfoldable pub start_election : Moment → List (Option (ℕ × Bool)) → RaftNode → RaftNode × Bool
unfolding count_votes conclude
start_election m answers n =
    let (n', r) = begin_election m n in
    let (n'', ballot) = count_votes m r.term (quorum n') 1 answers n' in
    conclude m r.term n'' ballot
