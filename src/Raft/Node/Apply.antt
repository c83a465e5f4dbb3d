-- ===== src/Raft/Node/Apply.antt =====
-- `_apply_committed` of raft/node.py: it reads the two indices under the lock, applies the entries
-- without it, and takes it again to write how far it has come.
use container_platform.Prelude.{ℕ, zero, suc, ◌+◌, ◌-◌, Option, none, some, ltb, if◌then◌else◌}
use container_platform.Raft.Log
use container_platform.Raft.Log.{RaftLog, LogEntry}
use container_platform.Raft.Node.{RaftNode}

-- The loop, for a state that `apply_fn` changes; an exception in it is logged, and that is part of
-- the function. An index with no entry is passed over.
module _ {S : Type 0} (apply_fn : LogEntry → S → S) where
  abbrev pub apply_entry : Option LogEntry → S → S
  apply_entry none s = s
  apply_entry (some e) s = apply_fn e s

  -- `count` more indices, from `idx` on.
  unfoldable pub apply_range : ℕ → ℕ → RaftLog → S → S
  apply_range zero idx l s = s
  apply_range (suc count) idx l s = apply_range count (suc idx) l (apply_entry (Log.get idx l) s)

  unfoldable pub apply_committed : RaftNode → S → S
  unfolding apply_range
  apply_committed n s = apply_range (n.commit_index - n.last_applied) (n.last_applied + 1) n.log s

-- The last part. The commit index is read again.
unfoldable pub finish_apply : RaftNode → RaftNode
finish_apply n =
    if ltb n.last_applied n.commit_index then record n { last_applied = n.commit_index } else n
