-- ===== src/Raft/Node/Winning.antt =====
-- Who wins an election of raft/node.py.
use container_platform.Prelude.{
  ℕ, suc, ◌+◌, ◌≤◌, ◌<◌, ◌≡◌, refl, ap, ◌∙◌, ◌⊎◌, inl, inr, Bool, true, false, Option, none, some,
  List, [], ◌∷◌, arith,
}
use container_platform.Raft.State.{increment_term, set_voted_for}
use container_platform.Raft.Node.{RaftNode, Moment, leader, quorum, is_leader, reset_contact}
use container_platform.Raft.Node.Election.{
  still_running, Ballot, counting, won, over, begin_election, take_vote, become_leader, count_votes,
  conclude, start_election,
}

-- The answers that grant the vote.
unfoldable pub grants : List (Option (ℕ × Bool)) → ℕ
grants [] = 0
grants (none ∷ rs) = grants rs
grants (some (t, true) ∷ rs) = suc (grants rs)
grants (some (t, false) ∷ rs) = grants rs

-- What one answer adds.
abbrev pub grant : Option (ℕ × Bool) → ℕ
grant (some (t, true)) = 1
grant _ = 0

grants-cons :
    (r : Option (ℕ × Bool)) (rs : List (Option (ℕ × Bool))) → grants (r ∷ rs) ≡ grant r + grants rs
unfolding grants
grants-cons none rs = omega arith
grants-cons (some (t, true)) rs = omega arith
grants-cons (some (t, false)) rs = omega arith

pub Ballot-cases : (b : Ballot) → ((b ≡ won) ⊎ (b ≡ over)) ⊎ ((v : ℕ) × (b ≡ counting v))
Ballot-cases (counting v) = inr (v, refl)
Ballot-cases won = inl (inl refl)
Ballot-cases over = inl (inr refl)

module _ (m : Moment) (term needed : ℕ) where
  pub take_vote-won :
      (votes : ℕ) (r : Option (ℕ × Bool)) (n : RaftNode)
      → (take_vote m term needed votes r n).1 ≡ won
      → (needed ≤ votes + grant r)
        × (0 < grant r)
        × ((take_vote m term needed votes r n).0 ≡ n)
        × (still_running term n ≡ true)
  unfolding take_vote
  take_vote-won votes none n h = ground arith
  take_vote-won votes (some (t, true)) n h = ground arith
  take_vote-won votes (some (t, false)) n h = ground arith

  pub take_vote-counting :
      (votes v : ℕ) (r : Option (ℕ × Bool)) (n : RaftNode)
      → (take_vote m term needed votes r n).1 ≡ counting v
      → (v ≡ votes + grant r) × ((take_vote m term needed votes r n).0 ≡ n)
  unfolding take_vote
  take_vote-counting votes v none n h = ground arith
  take_vote-counting votes v (some (t, true)) n h = ground arith
  take_vote-counting votes v (some (t, false)) n h = ground arith

  count_votes-counting :
      (votes v : ℕ) (r : Option (ℕ × Bool)) (rs : List (Option (ℕ × Bool))) (n : RaftNode)
      → (take_vote m term needed votes r n).1 ≡ counting v
      → count_votes m term needed votes (r ∷ rs) n ≡ count_votes m term needed v rs n
  unfolding count_votes
  count_votes-counting votes v r rs n h = ground (arith, (take_vote-counting votes v r n h).1)

  count_votes-end :
      (votes : ℕ) (b : Ballot) (r : Option (ℕ × Bool)) (rs : List (Option (ℕ × Bool)))
      (n : RaftNode)
      → (b ≡ won) ⊎ (b ≡ over)
      → (take_vote m term needed votes r n).1 ≡ b
      → count_votes m term needed votes (r ∷ rs) n ≡ ((take_vote m term needed votes r n).0, b)
  unfolding count_votes
  count_votes-end votes b r rs n e h = ground arith

  -- An election is won only by enough votes, and then the node has not changed while it counted.
  count_votes-won :
      (votes : ℕ) (rs : List (Option (ℕ × Bool))) (n : RaftNode)
      → (count_votes m term needed votes rs n).1 ≡ won
      → (needed ≤ votes + grants rs)
        × (0 < grants rs)
        × ((count_votes m term needed votes rs n).0 ≡ n)
        × (still_running term n ≡ true)
  count_votes-won votes [] n h = unfold count_votes in cc h
  count_votes-won votes (r ∷ rs) n h = elim (Ballot-cases (take_vote m term needed votes r n).1) [
    | inl (inl e) ↦
        let end = count_votes-end votes won r rs n (inl refl) e in
        let (enough, some_grant, same, running) = take_vote-won votes r n e in
        rw (end, grants-cons r rs) (omega arith, omega arith, same, running)
    | inl (inr e) ↦
        let end = count_votes-end votes over r rs n (inr refl) e in
        cc (ap (λ (p : RaftNode × Ballot). p.1) end)
    | inr (v, e) ↦
        let (votes', same) = take_vote-counting votes v r n e in
        let on = count_votes-counting votes v r rs n e in
        let ih = count_votes-won v rs n (rw on at h) in
        rw (on, grants-cons r rs) (omega (arith, ih.0), omega (arith, ih.1), ih.2, ih.3)
  ]

conclude-true :
    (m : Moment) (t : ℕ) (n : RaftNode) (b : Ballot)
    → (conclude m t n b).1 ≡ true
    → (b ≡ won)
      × ((conclude m t n b).0.role ≡ leader)
      × ((conclude m t n b).0.ps ≡ n.ps)
      × ((conclude m t n b).0.log ≡ n.log)
unfolding conclude become_leader reset_contact
conclude-true m t n won h = ground arith
conclude-true m t n (counting v) h = ground arith
conclude-true m t n over h = ground arith

pub begin_election_lem :
    (m : Moment) (n : RaftNode)
    → ((begin_election m n).0.ps.term ≡ n.ps.term + 1)
      × ((begin_election m n).0.ps.voted_for ≡ some n.node_id)
      × ((begin_election m n).0.log ≡ n.log)
      × ((begin_election m n).0.peers ≡ n.peers)
      × ((begin_election m n).1.term ≡ n.ps.term + 1)
unfolding begin_election reset_contact increment_term set_voted_for
begin_election_lem m n = ground arith

-- A node that `_start_election` makes the leader, with no other thread in between, leads in the
-- next term, has voted for itself, and a quorum of votes, its own included, was granted.
pub start_election_wins :
    (m : Moment) (answers : List (Option (ℕ × Bool))) (n : RaftNode)
    → (start_election m answers n).1 ≡ true
    → (quorum n ≤ 1 + grants answers)
      × ((start_election m answers n).0.role ≡ leader)
      × ((start_election m answers n).0.ps.term ≡ n.ps.term + 1)
      × ((start_election m answers n).0.ps.voted_for ≡ some n.node_id)
      × ((start_election m answers n).0.log ≡ n.log)
start_election_wins m answers n =
    unfold start_election in
    λ h.
      let (b, r) = begin_election m n in
      let (term, vote, log, peers, asked) = begin_election_lem m n in
      let (k, ballot) = count_votes m r.term (quorum b) 1 answers b in
      let (is_won, leads, ps, same_log) = conclude-true m r.term k ballot h in
      let (enough, some_grant, same, running) =
        count_votes-won m r.term (quorum b) 1 answers b is_won in
      let needed : quorum b ≡ quorum n = unfold quorum in rw peers in
      (
        rw needed at enough,
        leads,
        ap (λ p. p.term) ps ∙ ap (λ x. x.ps.term) same ∙ term,
        ap (λ p. p.voted_for) ps ∙ ap (λ x. x.ps.voted_for) same ∙ vote,
        same_log ∙ ap (λ x. x.log) same ∙ log,
      )

-- A node with no peers never becomes the leader, though its own vote is a quorum.
pub start_election_alone :
    (m : Moment) (n : RaftNode)
    → n.peers ≡ []
    → (quorum n ≡ 1)
      × ((start_election m [] n).1 ≡ false)
      × (is_leader (start_election m [] n).0 ≡ false)
unfolding start_election quorum begin_election is_leader reset_contact
start_election_alone m n h = ground arith
