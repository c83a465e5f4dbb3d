-- ===== src/Raft/Cluster/Leaders.antt =====
-- The leaders of a term in Raft/Cluster.
use mathlib.Core.List.{Perm}
use Prim.Native.Nat.{◌%◌}
use container_platform.Prelude.{
  ◌≡◌, refl, sym, ap, ◌∙◌, String, Option, List, ◌∷◌, length, arith, subst,
}
use container_platform.Raft.Log.{RaftLog}
use container_platform.Raft.State.{Saved, open_state-IsDurable}
use container_platform.Raft.Node.{RaftNode, Moment, leader, start_node, quorum}
use container_platform.Raft.Quorum.{tally, quorum_unique}
use container_platform.Raft.Cluster.{start_cluster, Move, run}
use container_platform.Raft.Cluster.Votes.{
  Ledger, votes_of, tally-perm, length-perm, length-votes_of,
}
use container_platform.Raft.Cluster.Backing.{HasQuorum, IsElected-Grows, IsSafe}
use container_platform.Raft.Cluster.Moves.{run-After}

start_cluster-IsSafe :
    (m : Moment) (peers : String → List String) (files : String → Option Saved)
    (logs : String → RaftLog)
    → IsSafe (start_cluster m peers files logs)
unfolding start_cluster start_node
start_cluster-IsSafe m peers files logs = record {
  noted = λ v t d e. ground arith;
  durable = λ v. open_state-IsDurable (files v);
  named = λ v. refl;
  elected = λ v leads. absurd (cc leads);
  backed = λ v g e. absurd (cc e);
  quorate = λ v g e. absurd (cc e);
}

quorum-length : (n k : RaftNode) → length k.peers ≡ length n.peers → quorum k ≡ quorum n
unfolding quorum
quorum-length n k e = rw e refl

-- Two nodes of one cluster that have a quorum in one term.
quorums_meet :
    (l : Ledger) (i j : String) (n k : RaftNode)
    → Perm (i ∷ n.peers) (j ∷ k.peers)
    → length n.peers % 2 ≡ 0
    → HasQuorum l i n
    → HasQuorum l j k
    → n.ps.term ≡ k.ps.term
    → i ≡ j
quorums_meet l i j n k same odd has_i has_j term =
    let t = n.ps.term in
    let moved = ap (λ u. tally j (votes_of l u (j ∷ k.peers))) term in
    let counts = tally-perm j l t same in
    let size : length k.peers ≡ length n.peers = omega (arith, length-perm same) in
    quorum_unique n (votes_of l t (i ∷ n.peers)) i j
      (omega (arith, length-votes_of l t (i ∷ n.peers))) odd has_i
      (omega (arith, has_j, moved, counts, quorum-length n k size))

-- In a cluster of an odd number of nodes, which knows its nodes, two nodes never lead in one term,
-- at one time or at two, whatever moves the nodes make.
pub leader_unique :
    (m : Moment) (peers : String → List String) (files : String → Option Saved)
    (logs : String → RaftLog) (before after : List Move) (i j : String)
    → Perm (i ∷ peers i) (j ∷ peers j)
    → length (peers i) % 2 ≡ 0
    → ((run before (start_cluster m peers files logs)).nodes i).role ≡ leader
    → ((run after (run before (start_cluster m peers files logs))).nodes j).role ≡ leader
    → ((run before (start_cluster m peers files logs)).nodes i).ps.term
      ≡ ((run after (run before (start_cluster m peers files logs))).nodes j).ps.term
    → i ≡ j
leader_unique m peers files logs before after i j same odd leads_i leads_j term =
    let c₀ = start_cluster m peers files logs in
    let c₁ = run before c₀ in
    let c₂ = run after c₁ in
    let first = run-After before c₀ (start_cluster-IsSafe m peers files logs) in
    let later = run-After after c₁ first.safe in
    let peers_i : (c₁.nodes i).peers ≡ peers i =
      first.same_peers i ∙ unfold start_cluster start_node in refl in
    let peers_j : (c₂.nodes j).peers ≡ peers j =
      later.same_peers j ∙ first.same_peers j ∙ unfold start_cluster start_node in refl in
    let has_i = IsElected-Grows i (c₁.nodes i) later.grows (first.safe.elected i) leads_i in
    quorums_meet c₂.ledger i j (c₁.nodes i) (c₂.nodes j)
      (subst (λ ps. Perm (i ∷ ps) (j ∷ (c₂.nodes j).peers)) (sym peers_i)
        (subst (λ ps. Perm (i ∷ peers i) (j ∷ ps)) (sym peers_j) same))
      (subst (λ ps. length ps % 2 ≡ 0) (sym peers_i) odd) has_i (later.safe.elected j leads_j) term
