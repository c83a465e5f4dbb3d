-- ===== src/Raft/Client.antt =====
-- rpc/client.py: `KVClient`, which looks for the leader. The answer of each address is given, `none`
-- if the call raises `RpcError`; it may differ from one attempt to the next, which are numbered by
-- the attempts that are left after them.
pub mod Reaching
use Prim.Native.Nat.{◌%◌}
use container_platform.Prelude.{
  ℕ, zero, suc, ◌+◌, String, Bool, true, false, Option, none, some, List, [], ◌∷◌, length,
  get_elem?, str_eq, if◌then◌else◌,
}
use container_platform.Raft.Service.{GetReply, WriteReply}

pub record KvClient : Type 0 where
  pub addrs : List String
  pub current : ℕ

unfoldable pub connect : List String → KvClient
connect addrs = record { addrs = addrs; current = 0 }

-- `self._addrs[self._current]`, which raises if the place is not there.
abbrev pub address : KvClient → Option String
address c = get_elem? c.addrs c.current

unfoldable pub rotate : KvClient → KvClient
rotate c = record c { current = (c.current + 1) % length c.addrs }

next_place : Option ℕ → Option ℕ
next_place none = none
next_place (some i) = some (suc i)

unfoldable pub index_of : String → List String → Option ℕ
unfolding next_place
index_of a [] = none
index_of a (b ∷ bs) = if str_eq b a then some 0 else next_place (index_of a bs)

moved_to : Option ℕ → KvClient → KvClient
moved_to none c = c
moved_to (some i) c = record c { current = i }

unfoldable pub follow_hint : String → KvClient → KvClient
unfolding moved_to
follow_hint addr c = moved_to (index_of addr c.addrs) c

-- What is done with an answer that is not the end.
unfoldable pub after_write : Option WriteReply → KvClient → KvClient
after_write none c = rotate c
after_write (some r) c = if str_eq r.leader_hint "" then rotate c else follow_hint r.leader_hint c

abbrev pub is_done : Option WriteReply → Bool
is_done none = false
is_done (some r) = r.ok

abbrev pub ask_at : {A : Type 0} → (String → Option A) → Option String → Option A
ask_at ask none = none
ask_at ask (some a) = ask a

-- The loop of `set` and of `delete`.
unfoldable pub write_loop : (ℕ → String → Option WriteReply) → ℕ → KvClient → KvClient × Bool
unfolding after_write
write_loop ask zero c = (c, false)
write_loop ask (suc left) c =
    let r = ask_at (ask left) (address c) in
    let rest = write_loop ask left (after_write r c) in if is_done r then (c, true) else rest

unfoldable pub write : (ℕ → String → Option WriteReply) → KvClient → KvClient × Bool
unfolding write_loop
write ask c = write_loop ask (length c.addrs) c

found_value : GetReply → Option String
found_value r = if r.found then some r.value else none

-- The loop of `get`, which takes the first answer that comes.
unfoldable pub read_loop : (ℕ → String → Option GetReply) → ℕ → KvClient → KvClient × Option String
unfolding found_value
read_loop ask zero c = (c, none)
read_loop ask (suc left) c = elim (ask_at (ask left) (address c)) [
  | none ↦ read_loop ask left (rotate c)
  | some r ↦ (c, found_value r)
]

unfoldable pub read : (ℕ → String → Option GetReply) → KvClient → KvClient × Option String
unfolding read_loop
read ask c = read_loop ask (length c.addrs) c
