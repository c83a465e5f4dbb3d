-- ===== src/Raft/Cluster/Hearing.antt =====
-- The answers that come to a candidate of Raft/Cluster, and those that do not.
use container_platform.Prelude.{
  ℕ, ◌+◌, ◌≤◌, ◌≡◌, refl, String, Bool, true, false, Option, none, some, List, [], ◌∷◌, arith, ◌⊎◌,
  inl, inr,
}
use container_platform.Raft.Node.{RaftNode, Moment, quorum}
use container_platform.Raft.Node.Election.{Ballot, won, over, counting, take_vote}
use container_platform.Raft.Node.Steps
use container_platform.Raft.Node.Steps.{Step-KeepsVote}
use container_platform.Raft.Node.Keeping.{take_vote-LedBefore}
use container_platform.Raft.Node.Winning.{grant, take_vote-won, take_vote-counting}
use container_platform.Raft.Cluster.{
  Campaign, Cluster, put_node, set_campaign, after_ballot, hear_first,
}
use container_platform.Raft.Cluster.Backing.{quorum-peers, IsSafe, After, After-trans, Step-After}
use container_platform.Raft.Cluster.Counting.{set_none-After, set_some-After, heard-IsBacked}

grant_le : (r : Option (ℕ × Bool)) → grant r ≤ 1
grant_le none = omega arith
grant_le (some (t, true)) = omega arith
grant_le (some (t, false)) = omega arith

-- A round of the loop over the peers, with the answer to it or with none.
module _ (s p : String) (ps : List String) (m : Moment) (g : Campaign) (r : Option (ℕ × Bool))
    (c : Cluster) (safe : IsSafe c) (e : c.campaigns s ≡ some g) (first : g.left ≡ p ∷ ps)
    (from : (r ≡ none) ⊎ (r ≡ g.answer)) where
  heard : RaftNode × Ballot
  heard = take_vote m g.request.term (quorum (c.nodes s)) g.votes r (c.nodes s)

  heard_moved : After c (put_node s heard.0 c)
  unfolding heard
  heard_moved =
      Step-After s heard.0 c safe
        (Steps.takes_vote m g.request.term (quorum (c.nodes s)) g.votes r (c.nodes s))
        (take_vote-LedBefore m g.request.term (quorum (c.nodes s)) g.votes r (c.nodes s))

  -- Where it goes on or ends.
  heard-After :
      (b : Ballot)
      → heard.1 ≡ b
      → After c (set_campaign s (after_ballot b g ps) (put_node s heard.0 c))
  unfolding after_ballot heard
  heard-After over is_b =
      After-trans heard_moved (set_none-After s (put_node s heard.0 c) heard_moved.safe)
  heard-After (counting v) is_b =
      let c' = put_node s heard.0 c in
      let held = heard_moved.safe.backed s g (unfold put_node in e) in
      let (adds, same) =
        take_vote-counting m g.request.term (quorum (c.nodes s)) g.votes v r (c.nodes s) is_b in
      let own =
        heard-IsBacked c'.ledger s p (c'.nodes s).peers ps g r v g.is_won held first from
          (omega (arith, adds)) in
      After-trans heard_moved (
        set_some-After s _ c' heard_moved.safe own
          (λ w. omega (arith, adds, heard_moved.safe.quorate s g (unfold put_node in e) w)))
  heard-After won is_b =
      let c' = put_node s heard.0 c in
      let held = heard_moved.safe.backed s g (unfold put_node in e) in
      let (enough, some_grant, same, running) =
        take_vote-won m g.request.term (quorum (c.nodes s)) g.votes r (c.nodes s) is_b in
      let own =
        heard-IsBacked c'.ledger s p (c'.nodes s).peers ps g r (g.votes + 1) true held first from
          (omega arith) in
      let peers = quorum-peers (c.nodes s) (c'.nodes s) (heard_moved.same_peers s) in
      After-trans heard_moved
        (set_some-After s _ c' heard_moved.safe own (λ w. omega (arith, enough, peers, grant_le r)))

pub hear_first-After :
    (s : String) (m : Moment) (arrives : Bool) (g : Campaign) (left : List String) (c : Cluster)
    → IsSafe c
    → c.campaigns s ≡ some g
    → g.left ≡ left
    → After c (hear_first s m arrives g left c)
unfolding hear_first
hear_first-After s m arrives g [] c safe e first = set_none-After s c safe
hear_first-After s m true g (p ∷ ps) c safe e first =
    unfold heard in heard-After s p ps m g g.answer c safe e first (inr refl) _ refl
hear_first-After s m false g (p ∷ ps) c safe e first =
    unfold heard in heard-After s p ps m g none c safe e first (inl refl) _ refl
