-- ===== src/Raft/Cluster/Backing.antt =====
-- What the ledger of Raft/Cluster has of the candidates and of the leaders, whatever node moves.
use container_platform.Prelude.{
  ℕ, ◌+◌, ◌≤◌, ◌≡◌, refl, sym, ap₂, ◌∙◌, String, true, Option, some, List, ◌∷◌, ◌++◌, arith, subst,
}
use container_platform.Raft.State.{IsDurable}
use container_platform.Raft.Node.{RaftNode, leader, quorum}
use container_platform.Raft.Node.Steps.{Step, KeepsVote, Step-KeepsVote}
use container_platform.Raft.Node.Keeping.{Keeps, Step-Keeps, LedBefore}
use container_platform.Raft.Quorum.{tally}
use container_platform.Raft.Cluster.{Campaign, Cluster, note, put_node, set_campaign}
use container_platform.Raft.Cluster.Votes.{
  Ledger, Grows, IsNoted, IsNoted-step, set-branches, note-Grows, note-IsNoted_own,
  note-IsNoted_other, votes_of, tally-Grows,
}

-- The votes that a candidate has counted are in the ledger, and so is the one that is on its way.
pub record IsBacked (l : Ledger) (s : String) (peers : List String) (g : Campaign) : Type 0 where
  pub asked : List String
  pub split_up : peers ≡ asked ++ g.left
  pub is_from : g.request.candidate_id ≡ s
  pub own : l s g.request.term ≡ some s
  pub counted : g.votes ≤ 1 + tally s (votes_of l g.request.term asked)
  pub granted :
      (p : String) (ps : List String) (t : ℕ)
      → g.left ≡ p ∷ ps
      → g.answer ≡ some (t, true)
      → l p g.request.term ≡ some s

-- A quorum of the cluster has voted for the node in its term.
abbrev pub HasQuorum : Ledger → String → RaftNode → Type 0
HasQuorum l s n = quorum n ≤ tally s (votes_of l n.ps.term (s ∷ n.peers))

abbrev pub IsElected : Ledger → String → RaftNode → Type 0
IsElected l s n = n.role ≡ leader → HasQuorum l s n

pub record IsSafe (c : Cluster) : Type 0 where
  pub noted : (v : String) → IsNoted c.ledger v (c.nodes v)
  pub durable : (v : String) → IsDurable (c.nodes v).ps
  pub named : (v : String) → (c.nodes v).node_id ≡ v
  pub elected : (v : String) → IsElected c.ledger v (c.nodes v)
  pub backed :
      (v : String) (g : Campaign) → c.campaigns v ≡ some g → IsBacked c.ledger v (c.nodes v).peers g
  pub quorate :
      (v : String) (g : Campaign)
      → c.campaigns v ≡ some g
      → g.is_won ≡ true
      → quorum (c.nodes v) ≤ g.votes

pub quorum-peers : (n k : RaftNode) → k.peers ≡ n.peers → quorum k ≡ quorum n
unfolding quorum
quorum-peers n k e = rw e refl

IsBacked-Grows :
    {l l' : Ledger} {s : String} {peers : List String} {g : Campaign}
    → Grows l l'
    → IsBacked l s peers g
    → IsBacked l' s peers g
IsBacked-Grows {l} {l'} {s} {g} grows b = record {
  asked = b.asked;
  split_up = b.split_up;
  is_from = b.is_from;
  own = grows s g.request.term s b.own;
  counted = omega (arith, b.counted, tally-Grows l l' s g.request.term b.asked grows);
  granted = λ p ps t e a. grows p g.request.term s (b.granted p ps t e a);
}

pub HasQuorum-same :
    (l : Ledger) (s : String) (n k : RaftNode)
    → k.ps.term ≡ n.ps.term
    → k.peers ≡ n.peers
    → HasQuorum l s n
    → HasQuorum l s k
HasQuorum-same l s n k term peers h =
    let votes = ap₂ (λ t ps. tally s (votes_of l t (s ∷ ps))) term peers in
    omega (arith, h, votes, quorum-peers n k peers)

pub IsElected-Grows :
    {l l' : Ledger} (s : String) (n : RaftNode) → Grows l l' → IsElected l s n → IsElected l' s n
IsElected-Grows {l} {l'} s n grows h leads =
    omega (arith, h leads, tally-Grows l l' s n.ps.term (s ∷ n.peers) grows)

-- A move of a node, by which its ledger grows.
module _ (s : String) (n : RaftNode) (c : Cluster) (safe : IsSafe c)
    (vote : KeepsVote (c.nodes s) n) where
  pub put_node-Grows : Grows c.ledger (put_node s n c).ledger
  unfolding put_node
  put_node-Grows = note-Grows s n c.ledger (IsNoted-step c.ledger s vote (safe.noted s))

  put_node-IsSafe :
      Keeps (c.nodes s) n → IsElected (put_node s n c).ledger s n → IsSafe (put_node s n c)
  put_node-IsSafe keeps led =
      let grows = put_node-Grows in
      let own = IsNoted-step c.ledger s vote (safe.noted s) in
      let l' = note s n c.ledger in
      unfold put_node in
      record {
        noted = λ v.
            set-branches (IsNoted l') s n c.nodes v (note-IsNoted_own s n c.ledger own)
              (λ other. note-IsNoted_other s n c.ledger v (c.nodes v) other (safe.noted v));
        durable = λ v.
            set-branches (λ _ k. IsDurable k.ps) s n c.nodes v (keeps.durable (safe.durable s))
              (λ _. safe.durable v);
        named = λ v.
            set-branches (λ w k. k.node_id ≡ w) s n c.nodes v (keeps.same_id ∙ safe.named s)
              (λ _. safe.named v);
        elected = λ v.
            set-branches (IsElected l') s n c.nodes v led
              (λ _. IsElected-Grows v (c.nodes v) grows (safe.elected v));
        backed = λ v g e.
            set-branches (λ w k. c.campaigns w ≡ some g → IsBacked l' w k.peers g) s n c.nodes v
              (λ e.
                subst (λ ps. IsBacked l' s ps g) (sym keeps.same_peers)
                  (IsBacked-Grows grows (safe.backed s g e)))
              (λ _ e. IsBacked-Grows grows (safe.backed v g e)) e;
        quorate = λ v g e w.
            set-branches (λ w k. c.campaigns w ≡ some g → quorum k ≤ g.votes) s n c.nodes v
              (λ e.
                omega (arith, quorum-peers (c.nodes s) n keeps.same_peers, safe.quorate s g e w))
              (λ _ e. safe.quorate v g e w) e;
      }

-- What a move leaves of a cluster.
pub record After (c c' : Cluster) : Type 0 where
  pub safe : IsSafe c'
  pub grows : Grows c.ledger c'.ledger
  pub same_peers : (v : String) → (c'.nodes v).peers ≡ (c.nodes v).peers

pub After-refl : (c : Cluster) → IsSafe c → After c c
After-refl c safe = record { safe = safe; grows = λ v t d e. e; same_peers = λ v. refl }

pub After-trans : {a b c : Cluster} → After a b → After b c → After a c
After-trans p q = record {
  safe = q.safe;
  grows = λ v t d e. q.grows v t d (p.grows v t d e);
  same_peers = λ v. q.same_peers v ∙ p.same_peers v;
}

pub put_node-After :
    (s : String) (n : RaftNode) (c : Cluster)
    → IsSafe c
    → KeepsVote (c.nodes s) n
    → Keeps (c.nodes s) n
    → IsElected (put_node s n c).ledger s n
    → After c (put_node s n c)
put_node-After s n c safe vote keeps led = record {
  safe = put_node-IsSafe s n c safe vote keeps led;
  grows = put_node-Grows s n c safe vote;
  same_peers = λ v.
      unfold put_node in
      set-branches (λ w k. k.peers ≡ (c.nodes w).peers) s n c.nodes v keeps.same_peers (λ _. refl);
}

-- A node that does not become the leader.
pub follower-After :
    (s : String) (n : RaftNode) (c : Cluster)
    → IsSafe c
    → KeepsVote (c.nodes s) n
    → Keeps (c.nodes s) n
    → LedBefore (c.nodes s) n
    → After c (put_node s n c)
follower-After s n c safe vote keeps before = put_node-After s n c safe vote keeps (λ leads.
    let (led, same) = before leads in
    let l' = (put_node s n c).ledger in
    let old = IsElected-Grows s (c.nodes s) (put_node-Grows s n c safe vote) (safe.elected s) led in
    HasQuorum-same l' s (c.nodes s) n same keeps.same_peers old)

pub Step-After :
    (s : String) (n : RaftNode) (c : Cluster)
    → IsSafe c
    → Step (c.nodes s) n
    → LedBefore (c.nodes s) n
    → After c (put_node s n c)
Step-After s n c safe st before =
    follower-After s n c safe (Step-KeepsVote st) (Step-Keeps st) before

-- An election that a node has from now on, or none.
pub set_campaign-After :
    (s : String) (g : Option Campaign) (c : Cluster)
    → IsSafe c
    → ((h : Campaign)
        → g ≡ some h
        → IsBacked c.ledger s (c.nodes s).peers h
          × (h.is_won ≡ true → quorum (c.nodes s) ≤ h.votes))
    → After c (set_campaign s g c)
unfolding set_campaign
set_campaign-After s g c safe h = record {
  safe = record {
    noted = safe.noted;
    durable = safe.durable;
    named = safe.named;
    elected = safe.elected;
    backed = λ v k.
        set-branches (λ w o. o ≡ some k → IsBacked c.ledger w (c.nodes w).peers k) s g c.campaigns v
          (λ e. (h k e).0) (λ _. safe.backed v k);
    quorate = λ v k.
        set-branches (λ w o. o ≡ some k → k.is_won ≡ true → quorum (c.nodes w) ≤ k.votes) s g
          c.campaigns v (λ e. (h k e).1) (λ _. safe.quorate v k);
  };
  grows = λ v t d e. e;
  same_peers = λ v. refl;
}
