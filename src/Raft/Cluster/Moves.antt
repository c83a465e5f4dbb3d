-- ===== src/Raft/Cluster/Moves.antt =====
-- Every move of Raft/Cluster keeps the votes behind its candidates and leaders.
use container_platform.Prelude.{
  ℕ, ◌≤◌, ◌≡◌, refl, sym, String, Bool, true, Option, none, some, List, [], ◌∷◌, arith, ◌⊎◌, inl,
  inr, subst, Bool-cases, if-branches,
}
use container_platform.Raft.Node.{
  RaftNode, Moment, leader, quorum, is_leader, handle_request_vote, reset_contact,
}
use container_platform.Raft.Node.Election.{begin_election, become_leader}
use container_platform.Raft.Node.Steps
use container_platform.Raft.Node.Steps.{Step-KeepsVote}
use container_platform.Raft.Node.Keeping.{
  Step-Keeps, handle_request_vote-LedBefore, begin_election-LedBefore,
}
use container_platform.Raft.Quorum.{tally}
use container_platform.Raft.Cluster.{
  Campaign, Cluster, put_node, act, begin_campaign, ask_first, ask_peer, hear_answer, lead, restart,
  Move, acts, begins, asks, hears, leads, restarts, move, run,
}
use container_platform.Raft.Cluster.Nodes.{
  act-Step, act-LedBefore, restart-KeepsVote, restart-Keeps, restart-LedBefore,
}
use container_platform.Raft.Cluster.Votes.{votes_of, tally-Grows, set_lem}
use container_platform.Raft.Cluster.Backing.{
  IsBacked, HasQuorum-same, IsElected-Grows, put_node-Grows, IsSafe, After, After-refl, After-trans,
  put_node-After, follower-After, Step-After,
}
use container_platform.Raft.Cluster.Counting.{
  set_none-After, set_some-After, new_campaign, new_campaign-IsBacked, asked-IsBacked,
  campaign_wins,
}
use container_platform.Raft.Cluster.Hearing.{hear_first-After}

nodes-put_node : (s : String) (n : RaftNode) (c : Cluster) → (put_node s n c).nodes s ≡ n
nodes-put_node s n c = unfold put_node in set_lem s n c.nodes

begin_campaign-After :
    (s : String) (m : Moment) (g : Option Campaign) (c : Cluster)
    → IsSafe c
    → After c (begin_campaign s m g c)
unfolding begin_campaign
begin_campaign-After s m (some g) c safe = After-refl c safe
begin_campaign-After s m none c safe =
    let n = (begin_election m (c.nodes s)).0 in
    let c' = put_node s n c in
    let g = new_campaign m (c.nodes s) in
    let moved =
      Step-After s n c safe (Steps.begins_election m (c.nodes s))
        (begin_election-LedBefore m (c.nodes s)) in
    let own : IsBacked c'.ledger s (c'.nodes s).peers g =
      subst (λ (k : RaftNode). IsBacked c'.ledger s k.peers g) (sym (nodes-put_node s n c))
        (unfold put_node in new_campaign-IsBacked s m (c.nodes s) c.ledger (safe.named s)) in
    let begun = set_some-After s g c' moved.safe own (λ w. cc w) in
    if-branches (After c) (is_leader (c.nodes s)) _ _ (After-refl c safe) (After-trans moved begun)

ask_first-After :
    (s : String) (m : Moment) (g : Campaign) (left : List String) (c : Cluster)
    → IsSafe c
    → c.campaigns s ≡ some g
    → g.left ≡ left
    → After c (ask_first s m g left c)
unfolding ask_first
ask_first-After s m g [] c safe e first = After-refl c safe
ask_first-After s m g (p ∷ ps) c safe e first =
    let n = (handle_request_vote m g.request (c.nodes p)).0 in
    let c' = put_node p n c in
    let moved =
      Step-After p n c safe (Steps.votes m g.request (c.nodes p))
        (handle_request_vote-LedBefore m g.request (c.nodes p)) in
    let held = moved.safe.backed s g (unfold put_node in e) in
    let g' = record g { answer = some (handle_request_vote m g.request (c.nodes p)).1 } in
    let own : IsBacked c'.ledger s (c'.nodes s).peers g' =
      unfold put_node in
      asked-IsBacked s p m (c.nodes p) c.ledger (c'.nodes s).peers ps g held first in
    After-trans moved
      (set_some-After s g' c' moved.safe own (moved.safe.quorate s g (unfold put_node in e)))

become_leader_lem :
    (m : Moment) (t : ℕ) (n : RaftNode)
    → ((become_leader m t n).0.ps.term ≡ n.ps.term)
      × ((become_leader m t n).0.peers ≡ n.peers)
      × ((become_leader m t n).0.role ≡ leader → (n.role ≡ leader) ⊎ (n.ps.term ≡ t))
unfolding become_leader reset_contact
become_leader_lem m t n = (ground arith, ground arith, ground arith)

-- The candidate that has won becomes the leader, if it is a candidate in that term still.
winner-After :
    (s : String) (m : Moment) (g : Campaign) (c : Cluster)
    → IsSafe c
    → c.campaigns s ≡ some g
    → g.is_won ≡ true
    → After c (put_node s (become_leader m g.request.term (c.nodes s)).0 c)
winner-After s m g c safe e is_won =
    let n = (become_leader m g.request.term (c.nodes s)).0 in
    let st = Steps.becomes_leader m g.request.term (c.nodes s) in
    let l' = (put_node s n c).ledger in
    let grows = put_node-Grows s n c safe (Step-KeepsVote st) in
    let (term, peers, led) = become_leader_lem m g.request.term (c.nodes s) in
    put_node-After s n c safe (Step-KeepsVote st) (Step-Keeps st) (λ leads.
      HasQuorum-same l' s (c.nodes s) n term peers (elim (led leads) [
        | inl before ↦ IsElected-Grows s (c.nodes s) grows (safe.elected s) before
        | inr now ↦
            let b = safe.backed s g e in
            let q = quorum (c.nodes s) in
            let wins =
              campaign_wins c.ledger s (c.nodes s).peers g q b (safe.quorate s g e is_won) in
            subst (λ t. q ≤ tally s (votes_of l' t (s ∷ (c.nodes s).peers))) (sym now)
              (omega (
                arith,
                wins,
                tally-Grows c.ledger l' s g.request.term (s ∷ (c.nodes s).peers) grows,
              ))
      ]))

lead-After :
    (s : String) (m : Moment) (g : Option Campaign) (c : Cluster)
    → IsSafe c
    → c.campaigns s ≡ g
    → After c (lead s m g c)
unfolding lead
lead-After s m none c safe e = After-refl c safe
lead-After s m (some g) c safe e = elim (Bool-cases g.is_won) [
  | inr not_yet ↦ rw not_yet (After-refl c safe)
  | inl is_won ↦
      let moved = winner-After s m g c safe e is_won in
      rw is_won (After-trans moved (set_none-After s _ moved.safe))
]

ask_peer-After :
    (s : String) (m : Moment) (g : Option Campaign) (c : Cluster)
    → IsSafe c
    → c.campaigns s ≡ g
    → After c (ask_peer s m g c)
unfolding ask_peer
ask_peer-After s m none c safe e = After-refl c safe
ask_peer-After s m (some g) c safe e = ask_first-After s m g g.left c safe e refl

hear_answer-After :
    (s : String) (m : Moment) (arrives : Bool) (g : Option Campaign) (c : Cluster)
    → IsSafe c
    → c.campaigns s ≡ g
    → After c (hear_answer s m arrives g c)
unfolding hear_answer
hear_answer-After s m arrives none c safe e = After-refl c safe
hear_answer-After s m arrives (some g) c safe e =
    if-branches (After c) g.is_won _ _ (After-refl c safe)
      (hear_first-After s m arrives g g.left c safe e refl)

restart-After :
    (s : String) (m : Moment) (c : Cluster)
    → IsSafe c
    → After c (put_node s (restart m (c.nodes s)) c)
restart-After s m c safe =
    let d = safe.durable s in
    let n = c.nodes s in
    follower-After s (restart m n) c safe (restart-KeepsVote m n d) (restart-Keeps m n d)
      (restart-LedBefore m n)

move-After : (m : Move) (c : Cluster) → IsSafe c → After c (move m c)
unfolding move
move-After (acts s a) c safe =
    Step-After s (act a (c.nodes s)) c safe (act-Step a (c.nodes s)) (act-LedBefore a (c.nodes s))
move-After (begins s m) c safe = begin_campaign-After s m (c.campaigns s) c safe
move-After (asks s m) c safe = ask_peer-After s m (c.campaigns s) c safe refl
move-After (hears s m arrives) c safe = hear_answer-After s m arrives (c.campaigns s) c safe refl
move-After (leads s m) c safe = lead-After s m (c.campaigns s) c safe refl
move-After (restarts s m) c safe =
    let moved = restart-After s m c safe in After-trans moved (set_none-After s _ moved.safe)

pub run-After : (ms : List Move) (c : Cluster) → IsSafe c → After c (run ms c)
unfolding run
run-After [] c safe = After-refl c safe
run-After (m ∷ ms) c safe =
    let first = move-After m c safe in After-trans first (run-After ms (move m c) first.safe)
