-- ===== src/Raft/Service.antt =====
-- rpc/server.py: `KVServicer`, what a node answers to clients. The handlers read the node several
-- times and let go of its lock in between, so that each reading is an argument. `RaftServicer`
-- passes its arguments on to the node.
use container_platform.Prelude.Dict
use container_platform.Prelude.Dict.{Dict}
use container_platform.Prelude.{
  ℕ, String, Bool, true, false, not, Option, none, some, List, str_eq, if◌then◌else◌,
}
use container_platform.Raft.Store
use container_platform.Raft.Node.{RaftNode, is_leader, propose, wait_for_commit}

pub record GetReply : Type 0 where
  pub value : String
  pub found : Bool
  pub leader_hint : String

-- The answer to a Set and to a Del.
pub record WriteReply : Type 0 where
  pub ok : Bool
  pub leader_hint : String
  pub error : String

or_empty : Option String → String
or_empty none = ""
or_empty (some s) = s

is_own : String → Option String → Bool
is_own node_id none = false
is_own node_id (some lid) = str_eq lid node_id

-- `_leader_addr`; `peers` has the address of each peer.
unfoldable pub leader_addr : Dict String → RaftNode → String
unfolding or_empty is_own
leader_addr peers n =
    if is_own n.node_id n.leader_id then "" else or_empty (Dict.lookup (or_empty n.leader_id) peers)

is_found : Option String → Bool
is_found none = false
is_found (some v) = true

unfoldable pub handle_get : Dict String → String → Dict String → RaftNode → GetReply
unfolding or_empty is_found leader_addr
handle_get peers key store n =
    let value = Store.get key store in
    record { value = or_empty value; found = is_found value; leader_hint = leader_addr peers n }

not_leader : Dict String → RaftNode → WriteReply
unfolding leader_addr
not_leader peers n = record { ok = false; leader_hint = leader_addr peers n; error = "not leader" }

-- How far a Set or a Del has come: it is answered, or it waits for the commit of an index.
pub data Pending : Type 0 where
  answered : WriteReply → Pending
  waits_for : ℕ → Pending

-- The part of `Set` and `Del` up to the wait: `checked` is the node when its role is read, `n` when
-- the command is proposed, and `told` when its leader is read.
unfoldable pub start_write :
    Dict String → String → RaftNode → RaftNode → RaftNode → RaftNode × Pending
unfolding not_leader
start_write peers command checked told n =
    if not (is_leader checked)
    then (n, answered (not_leader peers told))
    else let (n', (ok, index)) = propose command n in
      if ok then (n', waits_for index) else (n', answered (not_leader peers told))

-- The rest, with the nodes that the polls of the wait see.
unfoldable pub finish_write : Pending → List RaftNode → WriteReply
finish_write (answered r) seen = r
finish_write (waits_for index) seen =
    if wait_for_commit index seen
    then record { ok = true; leader_hint = ""; error = "" }
    else record { ok = false; leader_hint = ""; error = "commit timeout" }

pub record LeaderReply : Type 0 where
  pub leader_id : String
  pub leader_addr : String

unfoldable pub handle_leader : Dict String → RaftNode → LeaderReply
unfolding or_empty
handle_leader peers n =
    let lid = or_empty n.leader_id in
    record {
      leader_id = lid;
      leader_addr = if str_eq lid n.node_id then "" else or_empty (Dict.lookup lid peers);
    }
