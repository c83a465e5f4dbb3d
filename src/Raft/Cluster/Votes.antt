-- ===== src/Raft/Cluster/Votes.antt =====
-- The ledger of votes of Raft/Cluster: what is put down stays, and how votes are counted.
use mathlib.Core.List.{Perm, Permᴰ}
use mathlib.Core.Logic.{∥∥₁_elim}
use native.Mathlib.Nat.{ℕ_set}
use container_platform.Prelude.{
  ℕ, suc, ◌+◌, ◌≤◌, ◌≡◌, refl, sym, ap, ◌∙◌, String, ◌&&◌, Option, some, List, [], ◌∷◌, ◌++◌, map,
  length, arith, ◌⊎◌, ◌≢◌, inl, inr, subst, str_eq, ◌==◌, eq_iff, ==_iff, Bool-cases, Option-cases,
}
use container_platform.Raft.Node.{RaftNode}
use container_platform.Raft.Node.Steps.{KeepsVote}
use container_platform.Raft.Quorum.{tally}
use container_platform.Raft.Cluster.{set, note}

pub set-branches {κ} :
    {A : Type 0} (P : String → A → Type κ) (k : String) (a : A) (f : String → A) (j : String)
    → P k a
    → (j ≢ k → P j (f j))
    → P j (set k a f j)
unfolding set
set-branches P k a f j p q = elim (Bool-cases (str_eq j k)) [
  | inl same ↦ rw same (subst (λ i. P i a) (sym ((eq_iff j k).0 same)) p)
  | inr other ↦ rw other (q (λ e. cc ((eq_iff j k).1 e)))
]

pub set_lem : {A : Type 0} (k : String) (a : A) (f : String → A) → set k a f k ≡ a
unfolding set
set_lem k a f = rw ((eq_iff k k).1 refl) refl

abbrev pub Ledger : Type 0
Ledger = String → ℕ → Option String

-- Nothing that one ledger has is lost or changed in the other.
abbrev pub Grows : Ledger → Ledger → Type 0
Grows l l' = (v : String) (t : ℕ) (d : String) → l v t ≡ some d → l' v t ≡ some d

-- What the ledger has of a node is not of a later term, and in its term it is its vote.
abbrev pub IsNoted : Ledger → String → RaftNode → Type 0
IsNoted l v n =
    (t : ℕ) (d : String)
    → l v t ≡ some d
    → (t ≤ n.ps.term) × (t ≡ n.ps.term → n.ps.voted_for ≡ some d)

pub IsNoted-step :
    {n k : RaftNode} (l : Ledger) (v : String) → KeepsVote n k → IsNoted l v n → IsNoted l v k
IsNoted-step {n} {k} l v keeps h t d e =
    let (low, vote) = h t d e in
    (
      omega (arith, keeps.term_le),
      λ now.
          let same : n.ps.term ≡ k.ps.term = omega (arith, keeps.term_le) in
          keeps.same_vote d same (vote (now ∙ sym same)),
    )

note_cases :
    (s : String) (n : RaftNode) (l : Ledger) (v : String) (t : ℕ) (d : String)
    → note s n l v t ≡ some d
    → ((v ≡ s) × (t ≡ n.ps.term) × (n.ps.voted_for ≡ some d)) ⊎ (l v t ≡ some d)
unfolding note
note_cases s n l v t d h = elim (Option-cases n.ps.voted_for) [
  | inl e ↦ inr (ground arith)
  | inr (w, e) ↦ ground (arith, eq_iff v s)
]

pub note-Grows : (s : String) (n : RaftNode) (l : Ledger) → IsNoted l s n → Grows l (note s n l)
unfolding note
note-Grows s n l h v t d e = elim (Bool-cases (str_eq v s && t == n.ps.term)) [
  | inl here ↦
      let mine : v ≡ s = (eq_iff v s).0 (ground arith) in
      let now : t ≡ n.ps.term = ground arith in
      let vote = (h t d (subst (λ w. l w t ≡ some d) mine e)).1 now in rw (here, vote) refl
  | inr there ↦ rw there e
]

pub note-IsNoted_own :
    (s : String) (n : RaftNode) (l : Ledger) → IsNoted l s n → IsNoted (note s n l) s n
note-IsNoted_own s n l h t d e = elim (note_cases s n l s t d e) [
  | inl (same, now, vote) ↦ (omega arith, λ _. vote)
  | inr old ↦ h t d old
]

pub note-IsNoted_other :
    (s : String) (n : RaftNode) (l : Ledger) (v : String) (k : RaftNode)
    → v ≢ s
    → IsNoted l v k
    → IsNoted (note s n l) v k
note-IsNoted_other s n l v k other h t d e = elim (note_cases s n l v t d e) [
  | inl (same, now, vote) ↦ absurd (other same)
  | inr old ↦ h t d old
]

-- The vote of the node is put down.
pub note_lem :
    (s : String) (n : RaftNode) (l : Ledger) (d : String)
    → n.ps.voted_for ≡ some d
    → note s n l s n.ps.term ≡ some d
unfolding note
note_lem s n l d h = rw (h, (eq_iff s s).1 refl, (==_iff n.ps.term n.ps.term).1 refl) refl

-- The votes of some nodes in a term.
abbrev pub votes_of : Ledger → ℕ → List String → List (Option String)
votes_of l t vs = map (λ v. l v t) vs

pub tally-Grows :
    (l l' : Ledger) (c : String) (t : ℕ) (vs : List String)
    → Grows l l'
    → tally c (votes_of l t vs) ≤ tally c (votes_of l' t vs)
unfolding tally
tally-Grows l l' c t [] g = omega arith
tally-Grows l l' c t (v ∷ vs) g =
    let rest = tally-Grows l l' c t vs g in
    elim (Option-cases (l v t)) [
      | inl e ↦ rw e (omega arith)
      | inr (d, e) ↦ rw (e, g v t d e) (omega arith)
    ]

pub tally-append :
    (c : String) (xs ys : List (Option String)) → tally c (xs ++ ys) ≡ tally c xs + tally c ys
unfolding tally
tally-append c [] ys = omega arith
tally-append c (x ∷ xs) ys = omega (arith, tally-append c xs ys)

tally-Permᴰ :
    (c : String) (l : Ledger) (t : ℕ) {xs ys : List String}
    → Permᴰ xs ys
    → tally c (votes_of l t xs) ≡ tally c (votes_of l t ys)
unfolding tally
tally-Permᴰ c l t Permᴰ.nil = refl
tally-Permᴰ c l t (Permᴰ.cons e p) = rw e (omega (arith, tally-Permᴰ c l t p))
tally-Permᴰ c l t (Permᴰ.swap e f) = rw (e, f) (omega arith)
tally-Permᴰ c l t (Permᴰ.trans p q) = tally-Permᴰ c l t p ∙ tally-Permᴰ c l t q

-- The order in which the nodes are counted does not matter.
pub tally-perm :
    (c : String) (l : Ledger) (t : ℕ) {xs ys : List String}
    → Perm xs ys
    → tally c (votes_of l t xs) ≡ tally c (votes_of l t ys)
tally-perm c l t {xs} {ys} p =
    ∥∥₁_elim p (ℕ_set (tally c (votes_of l t xs)) (tally c (votes_of l t ys))) (tally-Permᴰ c l t)

length-Permᴰ : {xs ys : List String} → Permᴰ xs ys → length xs ≡ length ys
length-Permᴰ Permᴰ.nil = refl
length-Permᴰ (Permᴰ.cons e p) = ap suc (length-Permᴰ p)
length-Permᴰ (Permᴰ.swap e f) = refl
length-Permᴰ (Permᴰ.trans p q) = length-Permᴰ p ∙ length-Permᴰ q

pub length-perm : {xs ys : List String} → Perm xs ys → length xs ≡ length ys
length-perm {xs} {ys} p = ∥∥₁_elim p (ℕ_set (length xs) (length ys)) length-Permᴰ

pub length-votes_of : (l : Ledger) (t : ℕ) (vs : List String) → length (votes_of l t vs) ≡ length vs
length-votes_of l t [] = refl
length-votes_of l t (v ∷ vs) = ap suc (length-votes_of l t vs)
