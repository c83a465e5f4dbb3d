-- ===== src/Raft/Node/Applying.antt =====
-- What `_apply_committed` of raft/node.py gives to `apply_fn`.
use native.Mathlib.Nat.{add-zero, zero-add, add_comm}
use container_platform.Prelude.{
  ℕ, zero, suc, ◌+◌, ◌-◌, ◌≤◌, ◌<◌, ◌≡◌, refl, sym, ap, ◌∙◌, some, List, [], ◌∷◌, arith, length,
  get_elem?, take, length-drop,
}
use container_platform.Raft.Log
use container_platform.Raft.Log.{LogEntry, RaftLog, last_index, entries_from}
use container_platform.Raft.Log.Contiguous.{IsWellFormed, last_index-IsWellFormed}
use container_platform.Raft.Log.Indices.{get_elem?-entries_from}
use container_platform.Raft.Node.{RaftNode}
use container_platform.Raft.Node.Apply.{apply_entry, apply_range, apply_committed, finish_apply}

module _ {S : Type 0} (f : LogEntry → S → S) where
  -- All entries of a list, in their order.
  unfoldable pub apply_list : List LogEntry → S → S
  apply_list [] s = s
  apply_list (e ∷ es) s = apply_list es (f e s)

  apply_range-eq :
      (l : RaftLog) (count idx : ℕ) (es : List LogEntry) (s : S)
      → l.snapshot_last_index < idx
      → ((k : ℕ) → Log.get (idx + k) l ≡ get_elem? es k)
      → count ≤ length es
      → apply_range f count idx l s ≡ apply_list (take count es) s
  unfolding apply_range apply_list
  apply_range-eq l zero idx es s low same fits = refl
  apply_range-eq l (suc count) idx [] s low same fits = elim fits [ ]
  apply_range-eq l (suc count) idx (e ∷ es) s low same fits =
      let here : Log.get idx l ≡ some e = rw add-zero at (same 0) in
      let later : (k : ℕ) → Log.get (suc idx + k) l ≡ get_elem? es k =
        λ k. let q : suc idx + k ≡ idx + suc k = omega arith in rw q (same (suc k)) in
      rw here (apply_range-eq l count (suc idx) es (f e s) (omega arith) later (omega arith))

  -- Undisturbed, on a well-formed log whose snapshot is applied and which reaches the commit index,
  -- the pass applies exactly the entries above the last applied index up to the commit index, each
  -- once and in their order.
  pub apply_committed_lem :
      (n : RaftNode) (s : S)
      → IsWellFormed n.log
      → n.log.snapshot_last_index ≤ n.last_applied
      → n.commit_index ≤ last_index n.log
      → apply_committed f n s
        ≡ apply_list
            (take (n.commit_index - n.last_applied) (entries_from (n.last_applied + 1) n.log))
            s
  apply_committed_lem n s wf low high =
      unfold apply_committed in
      apply_range-eq n.log (n.commit_index - n.last_applied) (n.last_applied + 1)
        (entries_from (n.last_applied + 1) n.log) s (omega arith)
        (λ k. sym (get_elem?-entries_from n.log (n.last_applied + 1) k (omega arith)))
        (unfold entries_from in
          omega (
            arith,
            length-drop (n.last_applied + 1 - n.log.snapshot_last_index - 1) n.log.entries,
            last_index-IsWellFormed n.log wf,
          ))

  apply_range-add :
      (l : RaftLog) (a b idx : ℕ) (s : S)
      → apply_range f (a + b) idx l s ≡ apply_range f b (idx + a) l (apply_range f a idx l s)
  unfolding apply_range
  apply_range-add l zero b idx s = rw (zero-add, add-zero)
  apply_range-add l (suc a) b idx s =
      let p : suc a + b ≡ suc (a + b) = omega arith in
      let q : idx + suc a ≡ suc idx + a = omega arith in
      rw (p, q) (apply_range-add l a b (suc idx) (apply_entry f (Log.get idx l) s))

  -- The state is what the entries up to the last applied index make of the first state.
  abbrev pub IsApplied : S → RaftNode → S → Type 0
  IsApplied first n s = s ≡ apply_range f n.last_applied 1 n.log first

  -- A pass during which no other thread moves the commit index keeps this: no entry is applied
  -- twice and none is left out.
  pub apply_committed-IsApplied :
      (first : S) (n : RaftNode) (s : S)
      → n.last_applied ≤ n.commit_index
      → IsApplied first n s
      → IsApplied first (finish_apply n) (apply_committed f n s)
        × ((finish_apply n).last_applied ≡ n.commit_index)
  apply_committed-IsApplied first n s h a =
      let split : n.commit_index ≡ n.last_applied + (n.commit_index - n.last_applied) =
        omega arith in
      let done : (finish_apply n).last_applied ≡ n.commit_index =
        unfold finish_apply in ground arith in
      let same : (finish_apply n).log ≡ n.log = unfold finish_apply in ground arith in
      let c = n.commit_index - n.last_applied in
      let all = apply_range-add n.log n.last_applied c 1 first in
      let whole : apply_committed f n s ≡ apply_range f n.commit_index 1 n.log first =
        unfold apply_committed in
        ap (apply_range f c (n.last_applied + 1) n.log) a
        ∙ ap (λ i. apply_range f c i n.log (apply_range f n.last_applied 1 n.log first))
            (add_comm n.last_applied 1)
        ∙ sym all
        ∙ ap (λ x. apply_range f x 1 n.log first) (sym split) in
      rw (done, same) (whole, refl)

  apply_committed_idle :
      (n : RaftNode) (s : S) → n.commit_index ≤ n.last_applied → apply_committed f n s ≡ s
  unfolding apply_committed
  apply_committed_idle n s h = let q : n.commit_index - n.last_applied ≡ 0 = omega arith in rw q

  -- If another thread moves the commit index while the entries are applied, the entries between
  -- the two commit indices are never applied: the next pass has nothing left to do.
  pub apply_committed_skips :
      (n k : RaftNode) (s : S)
      → k.last_applied ≡ n.last_applied
      → n.commit_index < k.commit_index
      → n.last_applied ≤ n.commit_index
      → (apply_committed f (finish_apply k) (apply_committed f n s) ≡ apply_committed f n s)
        × ((finish_apply k).last_applied ≡ k.commit_index)
  apply_committed_skips n k s same more h =
      let done : finish_apply k ≡ record k { last_applied = k.commit_index } =
        unfold finish_apply in ground arith in
      rw done (apply_committed_idle _ _ (omega arith), refl)
