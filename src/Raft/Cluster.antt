-- ===== src/Raft/Cluster.antt =====
-- A whole cluster of the nodes of raft/node.py, and the calls between them: the threads of all
-- nodes move in any order, messages may be lost, repeated or forged, and nodes may stop and start
-- again from their files. Only the answer that a candidate counts is one that the peer it called
-- has given.
pub mod Nodes
pub mod Votes
pub mod Backing
pub mod Counting
pub mod Hearing
pub mod Moves
pub mod Leaders
use container_platform.Prelude.{
  ℕ, ◌+◌, String, Bool, true, false, ◌&&◌, Option, none, some, List, [], ◌∷◌, ◌==◌, str_eq,
  if◌then◌else◌,
}
use container_platform.Raft.Log.{RaftLog, open_log}
use container_platform.Raft.State.{Saved, open_state}
use container_platform.Raft.Node.{
  RaftNode, Moment, VoteRequest, AppendRequest, AppendReply, start_node, quorum, is_leader, propose,
  handle_request_vote, handle_append_entries,
}
use container_platform.Raft.Node.Election.{
  Ballot, counting, won, over, begin_election, take_vote, become_leader,
}
use container_platform.Raft.Node.Replication.{begin_replicate, take_reply}
use container_platform.Raft.Node.Apply.{finish_apply}

-- What the threads of a node do beside its elections, with any messages.
pub data Act : Type 0 where
  proposes : String → Act
  votes : Moment → VoteRequest → Act
  receives : Moment → AppendRequest → Act
  begins_replicate : ℕ → Act
  takes_reply : Moment → ℕ → String → Option AppendReply → Act
  finishes_apply : Act

unfoldable pub act : Act → RaftNode → RaftNode
act (proposes command) n = (propose command n).0
act (votes m r) n = (handle_request_vote m r n).0
act (receives m r) n = (handle_append_entries m r n).0
act (begins_replicate now) n = (begin_replicate now n).0
act (takes_reply m term peer answer) n = (take_reply m term peer answer n).0
act finishes_apply n = finish_apply n

-- The local variables of `_start_election`: the peers that are left begin with the one that is
-- asked, and its answer may have come. `is_won` stands for the call of `_become_leader`.
pub record Campaign : Type 0 where
  pub request : VoteRequest
  pub votes : ℕ
  pub left : List String
  pub answer : Option (ℕ × Bool)
  pub is_won : Bool

-- The ledger has the vote of each node in each term; no code reads it.
pub record Cluster : Type 0 where
  pub nodes : String → RaftNode
  pub campaigns : String → Option Campaign
  pub ledger : String → ℕ → Option String

-- The nodes with what their files hold; a vote that is on file was given before.
unfoldable pub start_cluster :
    Moment → (String → List String) → (String → Option Saved) → (String → RaftLog) → Cluster
start_cluster m peers files logs = record {
  nodes = λ s. start_node s (peers s) (open_state true (files s)) (logs s) m;
  campaigns = λ s. none;
  ledger = λ s t.
      let saved = open_state true (files s) in if t == saved.term then saved.voted_for else none;
}

unfoldable pub set : {A : Type 0} → String → A → (String → A) → String → A
set k a f j = if str_eq j k then a else f j

abbrev pub or_else : Option String → Option String → Option String
or_else none old = old
or_else (some c) old = some c

-- A node's vote in its term is put down.
unfoldable pub note : String → RaftNode → (String → ℕ → Option String) → String → ℕ → Option String
note s n ledger v t =
    if str_eq v s && t == n.ps.term then or_else n.ps.voted_for (ledger v t) else ledger v t

unfoldable pub put_node : String → RaftNode → Cluster → Cluster
put_node s n c = record c { nodes = set s n c.nodes; ledger = note s n c.ledger }

unfoldable pub set_campaign : String → Option Campaign → Cluster → Cluster
set_campaign s g c = record c { campaigns = set s g c.campaigns }

-- A node has one thread for its timer, and so one election at a time.
unfoldable pub begin_campaign : String → Moment → Option Campaign → Cluster → Cluster
begin_campaign s m (some g) c = c
begin_campaign s m none c =
    if is_leader (c.nodes s)
    then c
    else let (n, r) = begin_election m (c.nodes s) in
      set_campaign s
        (some (record { request = r; votes = 1; left = n.peers; answer = none; is_won = false }))
        (put_node s n c)

-- The peer that is asked gets the request, and its answer is on its way.
unfoldable pub ask_first : String → Moment → Campaign → List String → Cluster → Cluster
ask_first s m g [] c = c
ask_first s m g (p ∷ ps) c =
    let (n, reply) = handle_request_vote m g.request (c.nodes p) in
    set_campaign s (some (record g { answer = some reply })) (put_node p n c)

unfoldable pub ask_peer : String → Moment → Option Campaign → Cluster → Cluster
unfolding ask_first
ask_peer s m none c = c
ask_peer s m (some g) c = ask_first s m g g.left c

unfoldable pub after_ballot : Ballot → Campaign → List String → Option Campaign
after_ballot (counting v) g ps = some (record g { votes = v; left = ps; answer = none })
after_ballot won g ps =
    some (record g { votes = g.votes + 1; left = ps; answer = none; is_won = true })
after_ballot over g ps = none

-- A round of the loop over the peers; a call that fails has no answer.
unfoldable pub hear_first : String → Moment → Bool → Campaign → List String → Cluster → Cluster
unfolding after_ballot
hear_first s m arrives g [] c = set_campaign s none c
hear_first s m arrives g (p ∷ ps) c =
    let (n, ballot) =
      take_vote m g.request.term (quorum (c.nodes s)) g.votes (if arrives then g.answer else none)
        (c.nodes s) in
    set_campaign s (after_ballot ballot g ps) (put_node s n c)

unfoldable pub hear_answer : String → Moment → Bool → Option Campaign → Cluster → Cluster
unfolding hear_first
hear_answer s m arrives none c = c
hear_answer s m arrives (some g) c = if g.is_won then c else hear_first s m arrives g g.left c

-- `_become_leader`, some time after the last vote was counted.
unfoldable pub lead : String → Moment → Option Campaign → Cluster → Cluster
lead s m none c = c
lead s m (some g) c =
    if g.is_won
    then set_campaign s none (put_node s (become_leader m g.request.term (c.nodes s)).0 c)
    else c

restart_with : Moment → RaftNode → Option RaftLog → RaftNode
restart_with m n none = n
restart_with m n (some log) = start_node n.node_id n.peers (open_state n.ps.durable n.ps.file) log m

-- The process stops, and a new one opens the files. With a broken log it raises; a node that never
-- comes up again is one that makes no more moves.
unfoldable pub restart : Moment → RaftNode → RaftNode
unfolding restart_with
restart m n = restart_with m n (open_log n.log.durable n.log.file)

pub data Move : Type 0 where
  acts : String → Act → Move
  begins : String → Moment → Move
  asks : String → Moment → Move
  hears : String → Moment → Bool → Move
  leads : String → Moment → Move
  restarts : String → Moment → Move

unfoldable pub move : Move → Cluster → Cluster
unfolding act begin_campaign ask_peer hear_answer lead restart
move (acts s a) c = put_node s (act a (c.nodes s)) c
move (begins s m) c = begin_campaign s m (c.campaigns s) c
move (asks s m) c = ask_peer s m (c.campaigns s) c
move (hears s m arrives) c = hear_answer s m arrives (c.campaigns s) c
move (leads s m) c = lead s m (c.campaigns s) c
move (restarts s m) c = set_campaign s none (put_node s (restart m (c.nodes s)) c)

unfoldable pub run : List Move → Cluster → Cluster
unfolding move
run [] c = c
run (m ∷ ms) c = run ms (move m c)
