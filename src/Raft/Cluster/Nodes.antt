-- ===== src/Raft/Cluster/Nodes.antt =====
-- The moves of Raft/Cluster as steps of a node, and what a restart keeps.
use container_platform.Prelude.{◌≡◌, refl, Bool, true, false, Option, none, some}
use container_platform.Raft.Log.{RaftLog, open_log}
use container_platform.Raft.State.{PersistentState, IsDurable, load_state, open_state}
use container_platform.Raft.Node.{RaftNode, Moment, start_node}
use container_platform.Raft.Node.Steps
use container_platform.Raft.Node.Steps.{Step, KeepsVote, KeepsVote-same}
use container_platform.Raft.Node.Keeping.{
  Keeps, Keeps-same, LedBefore, propose-LedBefore, handle_request_vote-LedBefore,
  handle_append_entries-LedBefore, begin_replicate-LedBefore, take_reply-LedBefore,
  finish_apply-LedBefore,
}
use container_platform.Raft.Cluster.{
  Act, proposes, votes, receives, begins_replicate, takes_reply, finishes_apply, act, restart_with,
  restart,
}

pub act-Step : (a : Act) (n : RaftNode) → Step n (act a n)
unfolding act
act-Step (proposes c) n = Steps.proposes c n
act-Step (votes m r) n = Steps.votes m r n
act-Step (receives m r) n = Steps.receives m r n
act-Step (begins_replicate now) n = Steps.begins_replicate now n
act-Step (takes_reply m t p a) n = Steps.takes_reply m t p a n
act-Step finishes_apply n = Steps.finishes_apply n

pub act-LedBefore : (a : Act) (n : RaftNode) → LedBefore n (act a n)
unfolding act
act-LedBefore (proposes c) n = propose-LedBefore c n
act-LedBefore (votes m r) n = handle_request_vote-LedBefore m r n
act-LedBefore (receives m r) n = handle_append_entries-LedBefore m r n
act-LedBefore (begins_replicate now) n = begin_replicate-LedBefore now n
act-LedBefore (takes_reply m t p a) n = take_reply-LedBefore m t p a n
act-LedBefore finishes_apply n = finish_apply-LedBefore n

open_state_same :
    (durable : Bool) (s : PersistentState)
    → durable ≡ true
    → load_state s.file ≡ s
    → open_state durable s.file ≡ s
unfolding open_state
open_state_same true s d h = h
open_state_same false s d h = cc d

restart_with-ps :
    (m : Moment) (n : RaftNode) (log : Option RaftLog)
    → IsDurable n.ps
    → (restart_with m n log).ps ≡ n.ps
unfolding restart_with start_node
restart_with-ps m n none h = refl
restart_with-ps m n (some log) h = open_state_same n.ps.durable n.ps h.durable h.saved

pub restart-KeepsVote : (m : Moment) (n : RaftNode) → IsDurable n.ps → KeepsVote n (restart m n)
restart-KeepsVote m n h =
    unfold restart in KeepsVote-same (restart_with-ps m n (open_log n.log.durable n.log.file) h)

restart_with-named :
    (m : Moment) (n : RaftNode) (log : Option RaftLog)
    → ((restart_with m n log).node_id ≡ n.node_id) × ((restart_with m n log).peers ≡ n.peers)
unfolding restart_with start_node
restart_with-named m n none = (refl, refl)
restart_with-named m n (some log) = (refl, refl)

pub restart-Keeps : (m : Moment) (n : RaftNode) → IsDurable n.ps → Keeps n (restart m n)
restart-Keeps m n h =
    unfold restart in
    let log = open_log n.log.durable n.log.file in
    Keeps-same (restart_with-ps m n log h) (restart_with-named m n log).0
      (restart_with-named m n log).1

restart_with-leads :
    (m : Moment) (n : RaftNode) (log : Option RaftLog) → LedBefore n (restart_with m n log)
unfolding restart_with start_node
restart_with-leads m n none = λ h. (h, refl)
restart_with-leads m n (some log) = λ h. cc h

pub restart-LedBefore : (m : Moment) (n : RaftNode) → LedBefore n (restart m n)
restart-LedBefore m n = unfold restart in restart_with-leads m n (open_log n.log.durable n.log.file)
