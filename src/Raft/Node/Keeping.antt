-- ===== src/Raft/Node/Keeping.antt =====
-- What a step of a node keeps of it: its vote, its file, its name, and whether it leads.
use container_platform.Prelude.{
  ℕ, ◌≡◌, refl, ◌∙◌, sym, String, Bool, Option, none, some, arith, inl, inr, ◌⊎◌, subst,
}
use container_platform.Raft.State.{
  Change, IsDurable, increment_term, set_voted_for, change, change-IsDurable, term_set,
  term_incremented, vote_set,
}
use container_platform.Raft.Node.{
  RaftNode, Moment, VoteRequest, AppendRequest, AppendReply, leader, step_down, check_term,
  cast_vote, receive_append, propose, reset_contact, handle_request_vote, handle_append_entries,
}
use container_platform.Raft.Node.Election.{begin_election, take_vote, become_leader}
use container_platform.Raft.Node.Replication.{begin_replicate, take_reply, advance_commit}
use container_platform.Raft.Node.Apply.{finish_apply}
use container_platform.Raft.Node.Steps
use container_platform.Raft.Node.Steps.{Step, KeepsVote, KeepsVote-same, Step-KeepsVote}

-- The file stays up to date, and the names of the node and its peers stay the same.
pub record Keeps (n k : RaftNode) : Type 0 where
  pub durable : IsDurable n.ps → IsDurable k.ps
  pub same_id : k.node_id ≡ n.node_id
  pub same_peers : k.peers ≡ n.peers

Keeps-trans : {a b c : RaftNode} → Keeps a b → Keeps b c → Keeps a c
Keeps-trans p q = record {
  durable = λ h. q.durable (p.durable h);
  same_id = q.same_id ∙ p.same_id;
  same_peers = q.same_peers ∙ p.same_peers;
}

-- A part that leaves the durable state alone.
pub Keeps-same :
    {n k : RaftNode} → k.ps ≡ n.ps → k.node_id ≡ n.node_id → k.peers ≡ n.peers → Keeps n k
Keeps-same e i p = record { durable = subst IsDurable (sym e); same_id = i; same_peers = p }

-- A part that leaves the durable state alone, or makes one change of it.
Keeps-changed :
    {n k : RaftNode} (c : Change)
    → (k.ps ≡ n.ps) ⊎ (k.ps ≡ change c n.ps)
    → k.node_id ≡ n.node_id
    → k.peers ≡ n.peers
    → Keeps n k
Keeps-changed c (inl e) i p = Keeps-same e i p
Keeps-changed {n} c (inr e) i p = record {
  durable = λ h. subst IsDurable (sym e) (change-IsDurable c n.ps h);
  same_id = i;
  same_peers = p;
}

check_term-Keeps : (m : Moment) (t : ℕ) (n : RaftNode) → Keeps n (check_term m t n)
check_term-Keeps m t n =
    unfold check_term step_down reset_contact change in
    Keeps-changed (term_set t) (ground arith) (ground arith) (ground arith)

cast_vote-Keeps : (m : Moment) (r : VoteRequest) (n : RaftNode) → Keeps n (cast_vote m r n).0
cast_vote-Keeps m r n =
    unfold cast_vote reset_contact change in
    Keeps-changed (vote_set (some r.candidate_id)) (ground arith) (ground arith) (ground arith)

handle_request_vote-Keeps :
    (m : Moment) (r : VoteRequest) (n : RaftNode) → Keeps n (handle_request_vote m r n).0
handle_request_vote-Keeps m r n =
    unfold handle_request_vote in
    Keeps-trans (check_term-Keeps m r.term n) (cast_vote-Keeps m r (check_term m r.term n))

receive_append-Keeps :
    (m : Moment) (r : AppendRequest) (n : RaftNode) → Keeps n (receive_append m r n).0
receive_append-Keeps m r n =
    unfold receive_append in Keeps-same (ground arith) (ground arith) (ground arith)

handle_append_entries-Keeps :
    (m : Moment) (r : AppendRequest) (n : RaftNode) → Keeps n (handle_append_entries m r n).0
handle_append_entries-Keeps m r n =
    unfold handle_append_entries in
    Keeps-trans (check_term-Keeps m r.term n) (receive_append-Keeps m r (check_term m r.term n))

begin_election-Keeps : (m : Moment) (n : RaftNode) → Keeps n (begin_election m n).0
unfolding begin_election reset_contact change
begin_election-Keeps m n = record {
  durable = λ h.
      change-IsDurable (vote_set (some n.node_id)) (increment_term n.ps).0
        (change-IsDurable term_incremented n.ps h);
  same_id = refl;
  same_peers = refl;
}

take_vote-Keeps :
    (m : Moment) (term needed count : ℕ) (answer : Option (ℕ × Bool)) (n : RaftNode)
    → Keeps n (take_vote m term needed count answer n).0
unfolding take_vote step_down reset_contact change
take_vote-Keeps m term needed count none n = Keeps-same refl refl refl
take_vote-Keeps m term needed count (some (t, granted)) n =
    Keeps-changed (term_set t) (ground arith) (ground arith) (ground arith)

become_leader-Keeps : (m : Moment) (term : ℕ) (n : RaftNode) → Keeps n (become_leader m term n).0
become_leader-Keeps m term n =
    unfold become_leader reset_contact in Keeps-same (ground arith) (ground arith) (ground arith)

take_reply-Keeps :
    (m : Moment) (term : ℕ) (peer : String) (answer : Option AppendReply) (n : RaftNode)
    → Keeps n (take_reply m term peer answer n).0
unfolding take_reply advance_commit step_down reset_contact change
take_reply-Keeps m term peer none n = Keeps-same refl refl refl
take_reply-Keeps m term peer (some r) n =
    Keeps-changed (term_set r.term) (ground arith) (ground arith) (ground arith)

pub Step-Keeps : {n k : RaftNode} → Step n k → Keeps n k
Step-Keeps (Steps.proposes c n) =
    unfold propose in Keeps-same (ground arith) (ground arith) (ground arith)
Step-Keeps (Steps.votes m r n) = handle_request_vote-Keeps m r n
Step-Keeps (Steps.receives m r n) = handle_append_entries-Keeps m r n
Step-Keeps (Steps.begins_election m n) = begin_election-Keeps m n
Step-Keeps (Steps.takes_vote m t q c a n) = take_vote-Keeps m t q c a n
Step-Keeps (Steps.becomes_leader m t n) = become_leader-Keeps m t n
Step-Keeps (Steps.begins_replicate now n) =
    unfold begin_replicate in Keeps-same (ground arith) (ground arith) (ground arith)
Step-Keeps (Steps.takes_reply m t p a n) = take_reply-Keeps m t p a n
Step-Keeps (Steps.finishes_apply n) =
    unfold finish_apply in Keeps-same (ground arith) (ground arith) (ground arith)

-- A node that leads has led in its term already: only `_become_leader` makes a leader.
abbrev pub LedBefore : RaftNode → RaftNode → Type 0
LedBefore n k = k.role ≡ leader → (n.role ≡ leader) × (k.ps.term ≡ n.ps.term)

pub propose-LedBefore : (c : String) (n : RaftNode) → LedBefore n (propose c n).0
unfolding propose
propose-LedBefore c n = ground arith

pub handle_request_vote-LedBefore :
    (m : Moment) (r : VoteRequest) (n : RaftNode) → LedBefore n (handle_request_vote m r n).0
unfolding handle_request_vote check_term cast_vote step_down reset_contact set_voted_for
handle_request_vote-LedBefore m r n = ground arith

pub handle_append_entries-LedBefore :
    (m : Moment) (r : AppendRequest) (n : RaftNode) → LedBefore n (handle_append_entries m r n).0
unfolding handle_append_entries check_term receive_append step_down reset_contact
handle_append_entries-LedBefore m r n = ground arith

pub begin_election-LedBefore : (m : Moment) (n : RaftNode) → LedBefore n (begin_election m n).0
unfolding begin_election reset_contact
begin_election-LedBefore m n = ground arith

pub take_vote-LedBefore :
    (m : Moment) (term needed count : ℕ) (answer : Option (ℕ × Bool)) (n : RaftNode)
    → LedBefore n (take_vote m term needed count answer n).0
unfolding take_vote step_down reset_contact
take_vote-LedBefore m term needed count none n = λ h. (h, refl)
take_vote-LedBefore m term needed count (some (t, granted)) n = ground arith

pub begin_replicate-LedBefore : (now : ℕ) (n : RaftNode) → LedBefore n (begin_replicate now n).0
unfolding begin_replicate
begin_replicate-LedBefore now n = ground arith

pub take_reply-LedBefore :
    (m : Moment) (term : ℕ) (peer : String) (answer : Option AppendReply) (n : RaftNode)
    → LedBefore n (take_reply m term peer answer n).0
unfolding take_reply step_down reset_contact advance_commit
take_reply-LedBefore m term peer none n = λ h. (h, refl)
take_reply-LedBefore m term peer (some r) n = ground arith

pub finish_apply-LedBefore : (n : RaftNode) → LedBefore n (finish_apply n)
unfolding finish_apply
finish_apply-LedBefore n = ground arith
