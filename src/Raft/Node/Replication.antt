-- ===== src/Raft/Node/Replication.antt =====
-- The leader's side of raft/node.py: `_replicate` sends to the peers one after the other, and
-- lets go of the lock while it waits for each answer. The parts that hold the lock are
-- `begin_replicate` and `take_reply`; `append_request` reads the log in between.
use container_platform.Prelude.Dict
use container_platform.Prelude.Dict.{Dict}
use container_platform.Prelude.{
  ℕ, zero, suc, ◌+◌, ◌-◌, max, String, Bool, true, false, not, ◌&&◌, Option, none, some, List, [],
  ◌∷◌, ltb, leb, ◌==◌, if◌then◌else◌,
}
use container_platform.Raft.Log.{last_index, term_at, entries_from}
use container_platform.Raft.Node.{
  RaftNode, Moment, is_leader_role, AppendRequest, AppendReply, step_down, quorum,
  heartbeat_interval,
}

-- What `_replicate` reads at its start.
pub record Round : Type 0 where
  pub term : ℕ
  pub peers : List String
  pub next_idx : Dict ℕ
  pub commit : ℕ

unfoldable pub begin_replicate : ℕ → RaftNode → RaftNode × Option Round
begin_replicate now n =
    if is_leader_role n.role
    then (
      record n { last_contact = now },
      some (record {
        term = n.ps.term;
        peers = n.peers;
        next_idx = n.next_index;
        commit = n.commit_index;
      }),
    )
    else (n, none)

abbrev get_or_one : Option ℕ → ℕ
get_or_one none = 1
get_or_one (some i) = i

unfoldable pub append_request : Round → String → RaftNode → AppendRequest
append_request r peer n =
    let ni = get_or_one (Dict.lookup peer r.next_idx) in
    record {
      term = r.term;
      leader_id = n.node_id;
      prev_log_index = ni - 1;
      prev_log_term = term_at (ni - 1) n.log;
      entries = entries_from ni n.log;
      leader_commit = r.commit;
    }

unfoldable pub count_at_least : ℕ → List ℕ → ℕ
count_at_least n [] = 0
count_at_least n (i ∷ is) = if leb n i then suc (count_at_least n is) else count_at_least n is

-- The test of `_advance_commit` at one index.
unfoldable pub is_committable : ℕ → RaftNode → ℕ → Bool
is_committable term n at =
    term_at at n.log == term && leb (quorum n) (count_at_least at (Dict.values n.match_index))

-- The loop of `_advance_commit`, from an index down.
unfoldable pub scan_commit : ℕ → ℕ → RaftNode → ℕ
scan_commit term zero n = n.commit_index
scan_commit term (suc at) n =
    let rest = scan_commit term at n in
    if not (ltb n.commit_index (suc at))
    then n.commit_index
    else if is_committable term n (suc at)
    then suc at
    else rest

unfoldable pub advance_commit : ℕ → RaftNode → RaftNode
unfolding scan_commit
advance_commit term n = record n { commit_index = scan_commit term (last_index n.log) n }

-- What is done with one answer; the flag says whether the loop goes on.
unfoldable pub take_reply : Moment → ℕ → String → Option AppendReply → RaftNode → RaftNode × Bool
take_reply m term peer none n = (n, true)
take_reply m term peer (some r) n =
    if ltb n.ps.term r.term
    then (step_down m r.term n, false)
    else if not (is_leader_role n.role)
    then (n, false)
    else if r.success
    then (
      advance_commit term (record n {
        match_index =
            Dict.insert n.node_id (last_index n.log) (Dict.insert peer r.match_index n.match_index);
        next_index = Dict.insert peer (r.match_index + 1) n.next_index;
      }),
      true,
    )
    else (record n { next_index = Dict.insert peer (max 1 (r.match_index + 1)) n.next_index }, true)

-- What `_tick` does next.
pub data Due : Type 0 where
  replicate : Due
  election : Due
  nothing : Due

unfoldable pub tick : ℕ → RaftNode → Due
tick now n =
    if is_leader_role n.role
    then (if leb heartbeat_interval (now - n.last_contact) then replicate else nothing)
    else if leb n.election_timeout (now - n.last_contact)
    then election
    else nothing
