-- ===== src/Raft/Node.antt =====
-- raft/node.py: one participant. A method is a function of the node's state; a part of a method
-- that holds the lock is a function of its own where the method lets go of the lock in between.
-- Time is counted in milliseconds, and a reading of the clock and of the random generator is an
-- argument. An RPC that raises has the answer `none`.
pub mod Election
pub mod Replication
pub mod Apply
pub mod Steps
pub mod Merging
pub mod Following
pub mod Committing
pub mod Winning
pub mod Applying
pub mod Keeping
use container_platform.Prelude.Dict
use container_platform.Prelude.Dict.{Dict}
use container_platform.Prelude.{
  ℕ, zero, suc, ◌+◌, ◌-◌, ◌/◌, min, max, String, Bool, true, false, not, ◌&&◌, ◌||◌, Option, none,
  some, List, [], ◌∷◌, map, length, ltb, leb, ◌==◌, str_eq, if◌then◌else◌,
}
use container_platform.Raft.Log
use container_platform.Raft.Log.{RaftLog, LogEntry, last_index, last_term, term_at}
use container_platform.Raft.State.{PersistentState, set_term, increment_term, set_voted_for}

abbrev pub heartbeat_interval : ℕ
heartbeat_interval = 40

pub data Role : Type 0 where
  follower candidate leader : Role

abbrev pub is_candidate : Role → Bool
is_candidate candidate = true
is_candidate _ = false

abbrev pub is_leader_role : Role → Bool
is_leader_role leader = true
is_leader_role _ = false

-- What `time.monotonic()` and `_new_timeout()` return.
pub record Moment : Type 0 where
  pub now : ℕ
  pub timeout : ℕ

pub record RaftNode : Type 0 where
  pub node_id : String
  pub peers : List String
  pub ps : PersistentState
  pub log : RaftLog
  pub role : Role
  pub leader_id : Option String
  pub commit_index : ℕ
  pub last_applied : ℕ
  pub next_index : Dict ℕ
  pub match_index : Dict ℕ
  pub last_contact : ℕ
  pub election_timeout : ℕ

-- The constructor; the daemon thread that it starts makes the steps below.
unfoldable pub start_node : String → List String → PersistentState → RaftLog → Moment → RaftNode
start_node node_id peers ps log m = record {
  node_id = node_id;
  peers = peers;
  ps = ps;
  log = log;
  role = follower;
  leader_id = none;
  commit_index = 0;
  last_applied = 0;
  next_index = [];
  match_index = [];
  last_contact = m.now;
  election_timeout = m.timeout;
}

unfoldable pub is_leader : RaftNode → Bool
is_leader n = is_leader_role n.role

unfoldable pub quorum : RaftNode → ℕ
quorum n = (length n.peers + 2) / 2

unfoldable pub reset_contact : Moment → RaftNode → RaftNode
reset_contact m n = record n { last_contact = m.now; election_timeout = m.timeout }

unfoldable pub step_down : Moment → ℕ → RaftNode → RaftNode
unfolding reset_contact set_term
step_down m term n = reset_contact m (record n { ps = set_term term n.ps; role = follower })

check_term : Moment → ℕ → RaftNode → RaftNode
unfolding step_down
check_term m term n = if ltb n.ps.term term then step_down m term n else n

-- The public API.
unfoldable pub propose : String → RaftNode → RaftNode × (Bool × ℕ)
propose command n =
    if is_leader_role n.role
    then (
      record n {
        log =
            Log.append
              (record { term = n.ps.term; index = last_index n.log + 1; command = command }) n.log;
        match_index = Dict.insert n.node_id (last_index n.log + 1) n.match_index;
      },
      (true, last_index n.log + 1),
    )
    else (n, (false, 0))

-- The states that the polls of `wait_for_commit` see before its deadline.
unfoldable pub wait_for_commit : ℕ → List RaftNode → Bool
wait_for_commit index [] = false
wait_for_commit index (n ∷ seen) =
    if leb index n.commit_index then true else wait_for_commit index seen

-- The log that a vote is asked for is at least as new as the node's own.
unfoldable pub log_ok : ℕ → ℕ → RaftNode → Bool
log_ok last_log_index last_log_term n =
    ltb (last_term n.log) last_log_term
    || last_log_term == last_term n.log && leb (last_index n.log) last_log_index

may_vote : Option String → String → Bool
may_vote none c = true
may_vote (some v) c = str_eq v c

pub record VoteRequest : Type 0 where
  pub term : ℕ
  pub candidate_id : String
  pub last_log_index : ℕ
  pub last_log_term : ℕ

cast_vote : Moment → VoteRequest → RaftNode → RaftNode × (ℕ × Bool)
unfolding log_ok may_vote reset_contact
cast_vote m r n =
    if ltb r.term n.ps.term
    then (n, (n.ps.term, false))
    else if not (may_vote n.ps.voted_for r.candidate_id)
    then (n, (n.ps.term, false))
    else if not (log_ok r.last_log_index r.last_log_term n)
    then (n, (n.ps.term, false))
    else (
      reset_contact m (record n { ps = set_voted_for (some r.candidate_id) n.ps }),
      (n.ps.term, true),
    )

unfoldable pub handle_request_vote : Moment → VoteRequest → RaftNode → RaftNode × (ℕ × Bool)
unfolding check_term cast_vote
handle_request_vote m r n = cast_vote m r (check_term m r.term n)

pub record AppendRequest : Type 0 where
  pub term : ℕ
  pub leader_id : String
  pub prev_log_index : ℕ
  pub prev_log_term : ℕ
  pub entries : List LogEntry
  pub leader_commit : ℕ

pub record AppendReply : Type 0 where
  pub term : ℕ
  pub success : Bool
  pub match_index : ℕ

-- The loop over the sent entries; `at` is the index `first_new + i`.
unfoldable pub merge_entries : ℕ → List LogEntry → RaftLog → RaftLog
merge_entries at [] l = l
merge_entries at (e ∷ es) l = elim (Log.get at l) [
  | none ↦ Log.append_all (e ∷ es) l
  | some stored ↦
      let rest = merge_entries (suc at) es l in
      if stored.term == e.term then rest else Log.append_all (e ∷ es) (Log.truncate_from at l)
]

unfoldable pub advance_follower_commit : ℕ → RaftNode → RaftNode
advance_follower_commit leader_commit n =
    if ltb n.commit_index leader_commit
    then record n { commit_index = min leader_commit (last_index n.log) }
    else n

-- What follows the consistency check.
accept_entries : AppendRequest → RaftNode → RaftNode × AppendReply
unfolding advance_follower_commit
accept_entries r n =
    let n' =
      advance_follower_commit r.leader_commit
        (record n { log = merge_entries (r.prev_log_index + 1) r.entries n.log }) in
    (n', record { term = n'.ps.term; success = true; match_index = last_index n'.log })

check_consistency : AppendRequest → RaftNode → RaftNode × AppendReply
unfolding accept_entries
check_consistency r n =
    if ltb 0 r.prev_log_index && ltb (last_index n.log) r.prev_log_index
    then (n, record { term = n.ps.term; success = false; match_index = last_index n.log })
    else if ltb 0 r.prev_log_index && not (term_at r.prev_log_index n.log == r.prev_log_term)
    then (
      record n { log = Log.truncate_from r.prev_log_index n.log },
      record { term = n.ps.term; success = false; match_index = r.prev_log_index - 1 },
    )
    else accept_entries r n

-- A leader is known; a candidate gives up.
follow : Moment → String → RaftNode → RaftNode
unfolding reset_contact
follow m sender n =
    reset_contact m (record n {
      leader_id = some sender;
      role = if is_candidate n.role then follower else n.role;
    })

receive_append : Moment → AppendRequest → RaftNode → RaftNode × AppendReply
unfolding follow check_consistency
receive_append m r n =
    if ltb r.term n.ps.term
    then (n, record { term = n.ps.term; success = false; match_index = 0 })
    else check_consistency r (follow m r.leader_id n)

unfoldable pub handle_append_entries : Moment → AppendRequest → RaftNode → RaftNode × AppendReply
unfolding check_term receive_append
handle_append_entries m r n = receive_append m r (check_term m r.term n)
