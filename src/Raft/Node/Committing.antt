-- ===== src/Raft/Node/Committing.antt =====
-- The commit index of the leader, by `_advance_commit` of raft/node.py.
use container_platform.Prelude.{
  ℕ, zero, suc, ◌+◌, ◌*◌, ◌≤◌, ◌<◌, max, ◌≡◌, refl, [], ◌∷◌, length, inl, inr, true, arith, ◌==◌,
  Bool-cases,
}
use Prim.Native.Nat.{◌%◌}
use mathlib.Core.Logic.{ite}
use native.Mathlib.Decide.{dec_le}
use container_platform.Prelude.Dict
use container_platform.Prelude.Dict.{Dict}
use container_platform.Raft.Log.{last_index, term_at}
use container_platform.Raft.Node.{RaftNode, quorum}
use container_platform.Raft.Node.Replication.{
  advance_commit, scan_commit, is_committable, count_at_least,
}

module _ (term : ℕ) (n : RaftNode) where
  scan_commit-le : (at : ℕ) → n.commit_index ≤ scan_commit term at n
  unfolding scan_commit
  scan_commit-le zero = omega arith
  scan_commit-le (suc at) = ground (arith, scan_commit-le at)

  scan_commit-le_at : (at : ℕ) → scan_commit term at n ≤ max n.commit_index at
  unfolding scan_commit
  scan_commit-le_at zero = omega arith
  scan_commit-le_at (suc at) = ground (arith, scan_commit-le_at at)

  scan_commit_found :
      (at : ℕ)
      → n.commit_index < scan_commit term at n
      → is_committable term n (scan_commit term at n) ≡ true
  unfolding scan_commit
  scan_commit_found zero h = absurd (omega arith)
  scan_commit_found (suc at) h = ground (arith, scan_commit_found at)

  scan_commit_most :
      (at j : ℕ) → j ≤ at → is_committable term n j ≡ true → j ≤ scan_commit term at n
  unfolding scan_commit
  scan_commit_most zero j h c = omega arith
  scan_commit_most (suc at) j h c = elim (Bool-cases (j == suc at)) [
    | inl here ↦ ground arith
    | inr below ↦ ground (arith, scan_commit_most at j)
  ]

-- How many nodes have a match index that reaches an index.
abbrev pub reaching : ℕ → Dict ℕ → ℕ
reaching at [] = 0
reaching at ((peer, match_index) ∷ d) = ite (dec_le at match_index) 1 0 + reaching at d

-- More than half of the nodes of the cluster, the peers and the node itself.
abbrev pub IsMajority : ℕ → RaftNode → Type 0
IsMajority count n = length n.peers + 1 < 2 * count

count_at_least_lem : (at : ℕ) (d : Dict ℕ) → count_at_least at (Dict.values d) ≡ reaching at d
unfolding count_at_least Dict.values
count_at_least_lem at [] = refl
count_at_least_lem at ((p, i) ∷ d) = elim (dec_le at i) [
  | yes low ↦ ground (arith, count_at_least_lem at d)
  | no high ↦ ground (arith, count_at_least_lem at d)
]

-- In a cluster of an odd number of nodes, a commit index that `_advance_commit` has moved is that of
-- an entry of the given term, and more than half of the nodes have a match index that reaches it.
pub advance_commit-quorum :
    (term : ℕ) (n : RaftNode)
    → length n.peers % 2 ≡ 0
    → n.commit_index < (advance_commit term n).commit_index
    → (term_at (advance_commit term n).commit_index n.log ≡ term)
      × IsMajority (reaching (advance_commit term n).commit_index n.match_index) n
advance_commit-quorum term n odd =
    unfold advance_commit in λ h. reads _ (scan_commit_found term n (last_index n.log) h)
  where
    reads :
        (at : ℕ)
        → is_committable term n at ≡ true
        → (term_at at n.log ≡ term) × IsMajority (reaching at n.match_index) n
    reads at =
        unfold is_committable in
        λ h.
          let e = count_at_least_lem at n.match_index in
          let both : (term_at at n.log ≡ term)
              × (quorum n ≤ count_at_least at (Dict.values n.match_index)) =
            ground (arith, h) in
          (both.0, unfold quorum in omega (arith, e, both.1, odd))

-- `_advance_commit` never moves the commit index back, nor past the end of the log, and it passes
-- over no index of an entry of the term that more than half of the nodes reach.
pub advance_commit_most :
    (term : ℕ) (n : RaftNode)
    → (n.commit_index ≤ (advance_commit term n).commit_index)
      × ((advance_commit term n).commit_index ≤ max n.commit_index (last_index n.log))
      × ((j : ℕ)
          → j ≤ last_index n.log
          → term_at j n.log ≡ term
          → IsMajority (reaching j n.match_index) n
          → j ≤ (advance_commit term n).commit_index)
advance_commit_most term n =
    unfold advance_commit in
    (
      scan_commit-le term n (last_index n.log),
      scan_commit-le_at term n (last_index n.log),
      λ j h t most.
          let e = count_at_least_lem j n.match_index in
          let q : quorum n ≤ count_at_least j (Dict.values n.match_index) =
            unfold quorum in omega (arith, e, most) in
          scan_commit_most term n (last_index n.log) j h (unfold is_committable in ground arith),
    )
