-- ===== src/Raft/Node/Steps.antt =====
-- The parts of raft/node.py that hold the lock, as the steps of a node: any thread may make any of
-- them at any time, with any message. What holds along every sequence of steps.
use container_platform.Prelude.{
  ℕ, ◌≤◌, String, ◌≡◌, sym, ◌∙◌, Bool, true, Option, none, some, arith, eq_iff,
}
use container_platform.Raft.State.{increment_term, set_voted_for}
use container_platform.Raft.Node.{
  RaftNode, Moment, VoteRequest, AppendRequest, AppendReply, propose, handle_request_vote,
  handle_append_entries, check_term, receive_append, step_down, cast_vote, may_vote, reset_contact,
  log_ok,
}
use container_platform.Raft.Node.Election.{begin_election, take_vote, become_leader}
use container_platform.Raft.Node.Replication.{begin_replicate, take_reply, advance_commit}
use container_platform.Raft.Node.Apply.{finish_apply}

pub data Step : RaftNode → RaftNode → Type 0 where
  proposes : (command : String) (n : RaftNode) → Step n (propose command n).0
  votes : (m : Moment) (r : VoteRequest) (n : RaftNode) → Step n (handle_request_vote m r n).0
  receives :
      (m : Moment) (r : AppendRequest) (n : RaftNode) → Step n (handle_append_entries m r n).0
  begins_election : (m : Moment) (n : RaftNode) → Step n (begin_election m n).0
  takes_vote :
      (m : Moment) (term needed count : ℕ) (answer : Option (ℕ × Bool)) (n : RaftNode)
      → Step n (take_vote m term needed count answer n).0
  becomes_leader : (m : Moment) (term : ℕ) (n : RaftNode) → Step n (become_leader m term n).0
  begins_replicate : (now : ℕ) (n : RaftNode) → Step n (begin_replicate now n).0
  takes_reply :
      (m : Moment) (term : ℕ) (peer : String) (answer : Option AppendReply) (n : RaftNode)
      → Step n (take_reply m term peer answer n).0
  finishes_apply : (n : RaftNode) → Step n (finish_apply n)

pub data Reach (s : RaftNode) : RaftNode → Type 0 where
  here : Reach s s
  next : {t u : RaftNode} → Reach s t → Step t u → Reach s u

-- The term never falls, and a vote, once given, is not given to another in the same term.
pub record KeepsVote (n k : RaftNode) : Type 0 where
  pub term_le : n.ps.term ≤ k.ps.term
  pub same_vote :
      (c : String) → n.ps.term ≡ k.ps.term → n.ps.voted_for ≡ some c → k.ps.voted_for ≡ some c

KeepsVote-trans : {a b c : RaftNode} → KeepsVote a b → KeepsVote b c → KeepsVote a c
KeepsVote-trans {a} {b} {c} p q = record {
  term_le = omega arith;
  same_vote = λ v e h.
      let ab : a.ps.term ≡ b.ps.term = omega (arith, p.term_le, q.term_le) in
      let bc : b.ps.term ≡ c.ps.term = omega (arith, p.term_le, q.term_le) in
      q.same_vote v bc (p.same_vote v ab h);
}

-- A part that leaves the durable state alone.
pub KeepsVote-same : {n k : RaftNode} → k.ps ≡ n.ps → KeepsVote n k
KeepsVote-same e = record { term_le = ground arith; same_vote = λ c t h. ground arith }

check_term-KeepsVote : (m : Moment) (t : ℕ) (n : RaftNode) → KeepsVote n (check_term m t n)
unfolding check_term
check_term-KeepsVote m t n = record { term_le = ground arith; same_vote = λ c e g. ground arith }

cast_vote-KeepsVote :
    (m : Moment) (r : VoteRequest) (n : RaftNode) → KeepsVote n (cast_vote m r n).0
unfolding cast_vote set_voted_for
cast_vote-KeepsVote m r n = record {
  term_le = ground arith;
  same_vote = λ c e g. ground (arith, eq_iff c r.candidate_id);
}

handle_request_vote-KeepsVote :
    (m : Moment) (r : VoteRequest) (n : RaftNode) → KeepsVote n (handle_request_vote m r n).0
handle_request_vote-KeepsVote m r n =
    unfold handle_request_vote in
    KeepsVote-trans (check_term-KeepsVote m r.term n)
      (cast_vote-KeepsVote m r (check_term m r.term n))

receive_append-ps :
    (m : Moment) (r : AppendRequest) (n : RaftNode) → (receive_append m r n).0.ps ≡ n.ps
unfolding receive_append
receive_append-ps m r n = ground arith

handle_append_entries-KeepsVote :
    (m : Moment) (r : AppendRequest) (n : RaftNode) → KeepsVote n (handle_append_entries m r n).0
handle_append_entries-KeepsVote m r n =
    unfold handle_append_entries in
    KeepsVote-trans (check_term-KeepsVote m r.term n)
      (KeepsVote-same (receive_append-ps m r (check_term m r.term n)))

begin_election-KeepsVote : (m : Moment) (n : RaftNode) → KeepsVote n (begin_election m n).0
unfolding begin_election reset_contact increment_term set_voted_for
begin_election-KeepsVote m n = record { term_le = ground arith; same_vote = λ c e g. ground arith }

take_vote-KeepsVote :
    (m : Moment) (term needed count : ℕ) (answer : Option (ℕ × Bool)) (n : RaftNode)
    → KeepsVote n (take_vote m term needed count answer n).0
unfolding take_vote step_down
take_vote-KeepsVote m term needed count none n = record {
  term_le = ground arith;
  same_vote = λ c e g. g;
}
take_vote-KeepsVote m term needed count (some (t, granted)) n = record {
  term_le = ground arith;
  same_vote = λ c e g. ground arith;
}

take_reply-KeepsVote :
    (m : Moment) (term : ℕ) (peer : String) (answer : Option AppendReply) (n : RaftNode)
    → KeepsVote n (take_reply m term peer answer n).0
unfolding take_reply step_down advance_commit
take_reply-KeepsVote m term peer none n = record { term_le = ground arith; same_vote = λ c e g. g }
take_reply-KeepsVote m term peer (some r) n = record {
  term_le = ground arith;
  same_vote = λ c e g. ground arith;
}

pub Step-KeepsVote : {n k : RaftNode} → Step n k → KeepsVote n k
Step-KeepsVote (proposes c n) = KeepsVote-same (unfold propose in ground arith)
Step-KeepsVote (votes m r n) = handle_request_vote-KeepsVote m r n
Step-KeepsVote (receives m r n) = handle_append_entries-KeepsVote m r n
Step-KeepsVote (begins_election m n) = begin_election-KeepsVote m n
Step-KeepsVote (takes_vote m t q c a n) = take_vote-KeepsVote m t q c a n
Step-KeepsVote (becomes_leader m t n) =
    KeepsVote-same (unfold become_leader reset_contact in ground arith)
Step-KeepsVote (begins_replicate now n) = KeepsVote-same (unfold begin_replicate in ground arith)
Step-KeepsVote (takes_reply m t p a n) = take_reply-KeepsVote m t p a n
Step-KeepsVote (finishes_apply n) = KeepsVote-same (unfold finish_apply in ground arith)

Reach-KeepsVote : {n k : RaftNode} → Reach n k → KeepsVote n k
Reach-KeepsVote here = record { term_le = omega arith; same_vote = λ c e g. g }
Reach-KeepsVote (next r s) = KeepsVote-trans (Reach-KeepsVote r) (Step-KeepsVote s)

-- Along every sequence of steps, whatever messages arrive and however the threads interleave, the
-- term of a node never falls.
pub term-Reach-le : {n k : RaftNode} → Reach n k → n.ps.term ≤ k.ps.term
term-Reach-le r = (Reach-KeepsVote r).term_le

cast_vote_granted :
    (m : Moment) (r : VoteRequest) (n : RaftNode)
    → (cast_vote m r n).1.1 ≡ true
    → ((cast_vote m r n).0.ps.voted_for ≡ some r.candidate_id)
      × ((cast_vote m r n).0.ps.term ≡ n.ps.term)
      × (n.ps.term ≤ r.term)
      × ((cast_vote m r n).1.0 ≡ n.ps.term)
      × (may_vote n.ps.voted_for r.candidate_id ≡ true)
      × (log_ok r.last_log_index r.last_log_term n ≡ true)
unfolding cast_vote set_voted_for
cast_vote_granted m r n h = ground arith

term-check_term : (m : Moment) (t : ℕ) (n : RaftNode) → t ≤ (check_term m t n).ps.term
unfolding check_term
term-check_term m t n = ground arith

log-check_term : (m : Moment) (t : ℕ) (n : RaftNode) → (check_term m t n).log ≡ n.log
unfolding check_term
log-check_term m t n = ground arith

log_ok-check_term :
    (i t : ℕ) (m : Moment) (u : ℕ) (n : RaftNode) → log_ok i t (check_term m u n) ≡ log_ok i t n
unfolding log_ok
log_ok-check_term i t m u n = rw (log-check_term m u n)

-- A vote is granted in the term of the request only, it is recorded as the vote of that term, and
-- only a candidate whose log is at least as new as the node's own gets it.
pub handle_request_vote_granted :
    (m : Moment) (r : VoteRequest) (n : RaftNode)
    → (handle_request_vote m r n).1.1 ≡ true
    → ((handle_request_vote m r n).0.ps.voted_for ≡ some r.candidate_id)
      × ((handle_request_vote m r n).0.ps.term ≡ r.term)
      × ((handle_request_vote m r n).1.0 ≡ r.term)
      × (log_ok r.last_log_index r.last_log_term n ≡ true)
handle_request_vote_granted m r n =
    unfold handle_request_vote in
    λ h.
      let (vote, same, low, told, free, newer) = cast_vote_granted m r (check_term m r.term n) h in
      let top = term-check_term m r.term n in
      (vote, omega arith, omega arith, rw log_ok-check_term at newer)

-- A node never grants its vote to two candidates in one term, however many steps lie between the
-- two requests.
pub vote_once :
    (m₁ m₂ : Moment) (r₁ r₂ : VoteRequest) (n k : RaftNode)
    → Reach (handle_request_vote m₁ r₁ n).0 k
    → r₁.term ≡ r₂.term
    → (handle_request_vote m₁ r₁ n).1.1 ≡ true
    → (handle_request_vote m₂ r₂ k).1.1 ≡ true
    → r₁.candidate_id ≡ r₂.candidate_id
vote_once m₁ m₂ r₁ r₂ n k between same first second =
    let (vote₁, term₁, told₁, newer₁) = handle_request_vote_granted m₁ r₁ n first in
    let (vote₂, term₂, told₂, newer₂) = handle_request_vote_granted m₂ r₂ k second in
    let all = Reach-KeepsVote (next between (votes m₂ r₂ k)) in
    let still = all.same_vote r₁.candidate_id (term₁ ∙ same ∙ sym term₂) vote₁ in
    some_injective (sym still ∙ vote₂)
  where
    some_injective : {a b : String} → some a ≡ some b → a ≡ b
    some_injective e = cc
