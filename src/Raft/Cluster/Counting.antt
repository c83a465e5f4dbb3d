-- ===== src/Raft/Cluster/Counting.antt =====
-- A candidate of Raft/Cluster: what its request, the answers and the end of its election make of
-- the votes that it has counted.
use mathlib.Core.Option.{some-injective}
use mathlib.Core.List.{append_assoc, map-append}
use container_platform.Prelude.{
  ℕ, ◌+◌, ◌≤◌, ◌<◌, ◌≡◌, refl, sym, ap, ◌∙◌, String, Bool, true, false, Option, none, some, List,
  [], ◌∷◌, ◌++◌, arith, ◌⊎◌, inl, inr, subst, eq_iff,
}
use container_platform.Raft.Node.{RaftNode, Moment, quorum, handle_request_vote}
use container_platform.Raft.Node.Election.{begin_election}
use container_platform.Raft.Node.Steps.{handle_request_vote_granted}
use container_platform.Raft.Node.Winning.{grant, begin_election_lem}
use container_platform.Raft.Quorum.{tally}
use container_platform.Raft.Cluster.{Campaign, Cluster, set_campaign, note}
use container_platform.Raft.Cluster.Votes.{Ledger, note_lem, votes_of, tally-append}
use container_platform.Raft.Cluster.Backing.{IsBacked, IsSafe, After, set_campaign-After}

-- The election that has just begun.
abbrev pub new_campaign : Moment → RaftNode → Campaign
new_campaign m n = record {
  request = (begin_election m n).1;
  votes = 1;
  left = (begin_election m n).0.peers;
  answer = none;
  is_won = false;
}

pub new_campaign-IsBacked :
    (s : String) (m : Moment) (n : RaftNode) (l : Ledger)
    → n.node_id ≡ s
    → IsBacked (note s (begin_election m n).0 l) s (begin_election m n).0.peers (new_campaign m n)
new_campaign-IsBacked s m n l named =
    let n' = (begin_election m n).0 in
    let (term, vote, log, peers, told) = begin_election_lem m n in
    record {
      asked = [];
      split_up = refl;
      is_from = unfold begin_election in named;
      own =
          subst (λ t. note s n' l s t ≡ some s) (term ∙ sym told)
            (note_lem s n' l s (vote ∙ ap some named));
      counted = omega arith;
      granted = λ p ps t e a. cc a;
    }

-- The answer of the peer that is asked first is on its way.
pub asked-IsBacked :
    (s p : String) (m : Moment) (n : RaftNode) (l : Ledger) (peers ps : List String) (g : Campaign)
    → IsBacked (note p (handle_request_vote m g.request n).0 l) s peers g
    → g.left ≡ p ∷ ps
    → IsBacked
        (note p (handle_request_vote m g.request n).0 l)
        s
        peers
        (record g { answer = some (handle_request_vote m g.request n).1 })
asked-IsBacked s p m n l peers ps g b first = record {
  asked = b.asked;
  split_up = b.split_up;
  is_from = b.is_from;
  own = b.own;
  counted = b.counted;
  granted = λ q qs t e a.
      let n' = (handle_request_vote m g.request n).0 in
      let same : p ≡ q = cc in
      let (vote, term, told, newer) = handle_request_vote_granted m g.request n (cc a) in
      subst (λ x. note p n' l x g.request.term ≡ some s) same
        (subst (λ u. note p n' l p u ≡ some s) term (note_lem p n' l s (vote ∙ ap some b.is_from)));
}

grant_pos : (r : Option (ℕ × Bool)) → 0 < grant r → (u : ℕ) × (r ≡ some (u, true))
grant_pos none h = absurd (omega arith)
grant_pos (some (u, false)) h = absurd (omega arith)
grant_pos (some (u, true)) h = (u, refl)

granted_vote :
    (l : Ledger) (s p : String) (peers ps : List String) (g : Campaign) (r : Option (ℕ × Bool))
    → IsBacked l s peers g
    → g.left ≡ p ∷ ps
    → (r ≡ none) ⊎ (r ≡ g.answer)
    → 0 < grant r
    → l p g.request.term ≡ some s
granted_vote l s p peers ps g r b first (inl e) h =
    let (u, is_some) = grant_pos r h in absurd (cc (sym e ∙ is_some))
granted_vote l s p peers ps g r b first (inr e) h =
    let (u, is_some) = grant_pos r h in b.granted p ps u first (sym e ∙ is_some)

tally_asked :
    (l : Ledger) (s : String) (t : ℕ) (xs ys : List String)
    → tally s (votes_of l t (xs ++ ys)) ≡ tally s (votes_of l t xs) + tally s (votes_of l t ys)
tally_asked l s t xs ys =
    ap (tally s) (map-append (λ v. l v t) xs ys)
    ∙ tally-append s (votes_of l t xs) (votes_of l t ys)

tally_one :
    (l : Ledger) (s p : String) (t : ℕ) (r : Option (ℕ × Bool))
    → (0 < grant r → l p t ≡ some s)
    → grant r ≤ tally s (votes_of l t (p ∷ []))
unfolding tally
tally_one l s p t none h = omega arith
tally_one l s p t (some (u, false)) h = omega arith
tally_one l s p t (some (u, true)) h = rw (h (omega arith), (eq_iff s s).1 refl) (omega arith)

-- A round of the loop: the vote that is granted, if it is, is counted.
pub heard-IsBacked :
    (l : Ledger) (s p : String) (peers ps : List String) (g : Campaign) (r : Option (ℕ × Bool))
    (v : ℕ) (w : Bool)
    → IsBacked l s peers g
    → g.left ≡ p ∷ ps
    → (r ≡ none) ⊎ (r ≡ g.answer)
    → v ≤ g.votes + grant r
    → IsBacked l s peers (record g { votes = v; left = ps; answer = none; is_won = w })
heard-IsBacked l s p peers ps g r v w b first from counted = record {
  asked = b.asked ++ p ∷ [];
  split_up = b.split_up ∙ ap (◌++◌ b.asked) first ∙ sym (append_assoc b.asked (p ∷ []) ps);
  is_from = b.is_from;
  own = b.own;
  counted = omega (
    arith,
    b.counted,
    counted,
    tally_asked l s g.request.term b.asked (p ∷ []),
    tally_one l s p g.request.term r (granted_vote l s p peers ps g r b first from),
  );
  granted = λ q qs t e a. cc a;
}

-- With a quorum of counted votes there is a quorum in the ledger.
pub campaign_wins :
    (l : Ledger) (s : String) (peers : List String) (g : Campaign) (q : ℕ)
    → IsBacked l s peers g
    → q ≤ g.votes
    → q ≤ tally s (votes_of l g.request.term (s ∷ peers))
unfolding tally
campaign_wins l s peers g q b enough =
    let all = tally_asked l s g.request.term b.asked g.left in
    let split = ap (λ vs. tally s (votes_of l g.request.term vs)) b.split_up in
    rw (b.own, (eq_iff s s).1 refl) (omega (arith, b.counted, all, split))

pub set_none-After : (s : String) (c : Cluster) → IsSafe c → After c (set_campaign s none c)
set_none-After s c safe = set_campaign-After s none c safe (λ h e. absurd (cc e))

pub set_some-After :
    (s : String) (g : Campaign) (c : Cluster)
    → IsSafe c
    → IsBacked c.ledger s (c.nodes s).peers g
    → (g.is_won ≡ true → quorum (c.nodes s) ≤ g.votes)
    → After c (set_campaign s (some g) c)
set_some-After s g c safe b q = set_campaign-After s (some g) c safe (λ h e.
    subst
      (λ k.
        IsBacked c.ledger s (c.nodes s).peers k × (k.is_won ≡ true → quorum (c.nodes s) ≤ k.votes))
      (some-injective g h e) (b, q))
