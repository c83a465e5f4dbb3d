-- ===== src/Raft/Quorum.antt =====
-- Votes over a whole cluster: each node votes for one candidate at most (`vote_once`), and a
-- candidate needs the `quorum` of raft/node.py.
use container_platform.Prelude.{
  ℕ, zero, suc, ◌+◌, ◌/◌, ◌≤◌, String, ◌≡◌, ◌≢◌, inl, inr, Bool, false, Option, none, some, List,
  [], ◌∷◌, arith, eq_iff, length, str_eq, if◌then◌else◌, Bool-cases,
}
use Prim.Native.Nat.{◌%◌}
use container_platform.Raft.Node.{RaftNode, quorum}

-- Whether a vote is for the candidate.
abbrev pub is_for : String → Option String → Bool
is_for c none = false
is_for c (some v) = str_eq v c

-- The votes for a candidate, one entry for each node of the cluster.
unfoldable pub tally : String → List (Option String) → ℕ
tally c [] = 0
tally c (v ∷ vs) = (if is_for c v then 1 else 0) + tally c vs

tally_disjoint :
    (c d : String) (vs : List (Option String)) → c ≢ d → tally c vs + tally d vs ≤ length vs
unfolding tally
tally_disjoint c d [] h = omega arith
tally_disjoint c d (none ∷ vs) h = ground (arith, tally_disjoint c d vs)
tally_disjoint c d (some v ∷ vs) h = ground (arith, tally_disjoint c d vs, eq_iff v c, eq_iff v d)

quorum_even : (n : RaftNode) → length n.peers % 2 ≡ 0 → quorum n + quorum n ≡ length n.peers + 2
unfolding quorum
quorum_even n h = omega arith

-- In a cluster of an odd number of nodes at most one candidate has a quorum of votes in a term.
pub quorum_unique :
    (n : RaftNode) (votes : List (Option String)) (c d : String)
    → length votes ≡ length n.peers + 1
    → length n.peers % 2 ≡ 0
    → quorum n ≤ tally c votes
    → quorum n ≤ tally d votes
    → c ≡ d
quorum_unique n votes c d all odd hc hd = elim (Bool-cases (str_eq c d)) [
  | inl same ↦ (eq_iff c d).0 same
  | inr other ↦ absurd (
      let apart = tally_disjoint c d votes (λ e. cc ((eq_iff c d).1 e)) in
      let two = quorum_even n odd in omega arith)
]

-- The first half of the nodes votes for one candidate, and the rest for the other.
abbrev halves : String → String → ℕ → List (Option String)
halves c d zero = []
halves c d (suc n) = some c ∷ some d ∷ halves c d n

tally-halves :
    (c d : String) (n : ℕ)
    → c ≢ d
    → (tally c (halves c d n) ≡ n) × (tally d (halves c d n) ≡ n) × (length (halves c d n) ≡ n + n)
unfolding tally
tally-halves c d zero h = ground arith
tally-halves c d (suc n) h =
    ground (arith, tally-halves c d n, eq_iff c c, eq_iff d d, eq_iff c d, eq_iff d c)

-- In a cluster of an even number of nodes the quorum is half of them: two candidates can have a
-- quorum of votes each.
pub quorum_split :
    (n : RaftNode) (c d : String)
    → length n.peers % 2 ≡ 1
    → c ≢ d
    → (votes : List (Option String)) × (length votes ≡ length n.peers + 1)
      × (quorum n ≤ tally c votes)
      × (quorum n ≤ tally d votes)
quorum_split n c d even other =
    let half = (length n.peers + 1) / 2 in
    let (tc, td, all) = tally-halves c d half other in
    (halves c d half, omega arith, unfold quorum in omega arith, unfold quorum in omega arith)
