-- ===== src/Raft/Examples/Clients.antt =====
-- Clients that ask the nodes of a cluster to write.
use mathlib.Core.Option.{some-injective}
use container_platform.Prelude.Dict
use container_platform.Prelude.Dict.{Dict}
use container_platform.Prelude.{
  ℕ, String, ◌≡◌, refl, sym, ap, ◌∙◌, ◌⊎◌, inr, Bool, true, false, Option, none, some, [], ◌∷◌,
  arith, str_eq, if◌then◌else◌,
}
use container_platform.Raft.Log.{last_index, term_at}
use container_platform.Raft.Store
use container_platform.Raft.State.{set_term}
use container_platform.Raft.Log
use container_platform.Raft.Node.{
  RaftNode, leader, handle_append_entries, merge_entries, reset_contact, is_leader, propose,
  wait_for_commit,
}
use container_platform.Raft.Service.{
  WriteReply, GetReply, Pending, handle_get, handle_leader, leader_addr, start_write, finish_write,
}
use container_platform.Raft.Client.{
  KvClient, connect, rotate, index_of, follow_hint, after_write, write_loop, write, read_loop, read,
}
use container_platform.Raft.Client.Reaching.{write_reaches}
use container_platform.Raft.Examples.Nodes.{node}

program : Unit {0}
unfolding last_index Log.append is_leader propose wait_for_commit leader_addr start_write
    finish_write connect rotate index_of follow_hint after_write write_loop write Dict.lookup
    read_loop read handle_get handle_leader Store.get handle_append_entries set_term reset_contact
    merge_entries Log.get Log.append_all Log.truncate_from term_at
program = tt

abbrev follower_node : RaftNode
follower_node = record (node ("n1" ∷ "n3" ∷ []) 2 []) { node_id = "n2"; leader_id = some "n1" }

abbrev leader_node : RaftNode
leader_node = record (node ("n2" ∷ "n3" ∷ []) 2 []) { role = leader; leader_id = some "n1" }

abbrev addresses : String → Dict String
addresses first = ("n1", first) ∷ ("n2", "host2") ∷ ("n3", "host3") ∷ []

-- The answer of a node, whose wait sees the node with its first entry committed.
abbrev answer : String → RaftNode → WriteReply
answer first n =
    let (n', p) = start_write (addresses first) "SET k v" n n n in finish_write p (n' ∷ [])

-- The third node is down.
abbrev answer_of : String → Bool → Bool → Option WriteReply
answer_of first true _ = some (answer first leader_node)
answer_of first false true = some (answer first follower_node)
answer_of first false false = none

abbrev ask : String → ℕ → String → Option WriteReply
ask first k b = answer_of first (str_eq b "host1") (str_eq b "host2")

abbrev client : KvClient
client = connect ("host3" ∷ "host2" ∷ "host1" ∷ [])

led : answer "host1" leader_node ≡ record { ok = true; leader_hint = ""; error = "" }
unfolding program
led = refl

hinted :
    answer "host1" follower_node
    ≡ record { ok = false; leader_hint = "host1"; error = "not leader" }
unfolding program
hinted = refl

hint_agrees :
    (is_first is_second : Bool) (r : WriteReply)
    → answer_of "host1" is_first is_second ≡ some r
    → r.ok ≡ false
    → (r.leader_hint ≡ "") ⊎ (r.leader_hint ≡ "host1")
hint_agrees true _ r e h =
    let same = some-injective (answer "host1" leader_node) r e in
    absurd (cc (ap (λ (w : WriteReply). w.ok) (sym led ∙ same) ∙ h))
hint_agrees false true r e h =
    let same = some-injective (answer "host1" follower_node) r e in
    inr (sym (ap (λ (w : WriteReply). w.leader_hint) (sym hinted ∙ same)))
hint_agrees false false r e h = absurd (cc e)

write_reaches_example : (write (ask "host1") client).1 ≡ true
unfolding connect index_of
write_reaches_example =
    write_reaches (ask "host1") client "host1" 2 refl (omega arith)
      (λ k. (answer "host1" leader_node, refl, ap (λ (w : WriteReply). w.ok) led))
      (λ k b. hint_agrees (str_eq b "host1") (str_eq b "host2"))

-- A hint that is not among the addresses of the client keeps it where it is, though the leader
-- would write.
stuck : (write (ask "other_name") client).1 ≡ false
unfolding program
stuck = refl

-- A leader proposes, is replaced before the entry is sent on, and the new leader commits another
-- command at the same index.
abbrev proposed : RaftNode × Pending
proposed =
    let n = record leader_node { commit_index = 0 } in
    start_write (addresses "host1") "SET k v" n n n

abbrev replaced : RaftNode
replaced =
    (handle_append_entries (record { now = 10; timeout = 200 })
      (record {
        term = 3;
        leader_id = "n2";
        prev_log_index = 0;
        prev_log_term = 0;
        entries = record { term = 3; index = 1; command = "SET k other" } ∷ [];
        leader_commit = 1;
      })
      proposed.0).0

-- The wait sees only that the index is committed: the Set is answered as done.
lost :
    ((finish_write proposed.1 (replaced ∷ [])).ok ≡ true)
    × (Log.get 1 replaced.log ≡ some (record { term = 3; index = 1; command = "SET k other" }))
unfolding program
lost = (refl, refl)

asked_leader :
    handle_leader (addresses "host1") follower_node
    ≡ record { leader_id = "n1"; leader_addr = "host1" }
unfolding program
asked_leader = refl

-- A read is answered by the first node that is up.
abbrev stored : GetReply
stored = handle_get (addresses "host1") "k" (("k", "v") ∷ []) follower_node

read_value : (read (λ k b. if str_eq b "host2" then some stored else none) client).1 ≡ some "v"
unfolding program
read_value = refl
