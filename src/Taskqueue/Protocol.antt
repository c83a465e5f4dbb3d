-- ===== src/Taskqueue/Protocol.antt =====
-- broker/protocol.py: frames on a connection. A byte is a number below 256. A message is what its JSON
-- text stands for: the module of the standard library that reads and writes it is given as two
-- functions, `dumps` to bytes and `loads`, which is `none` where the source reports a malformed body.
pub mod Receiving
pub mod Framing
use container_platform.Prelude.{
  ℕ, zero, suc, ◌+◌, ◌-◌, ◌*◌, ◌/◌, ◌%◌, ◌^◌, Bool, true, false, not, ◌&&◌, Option, none, some,
  List, [], ◌∷◌, ◌++◌, length, take, drop, min, ltb, ◌==◌, if◌then◌else◌,
}

abbrev pub header_size : ℕ
header_size = 8

-- b"TSKQ"
abbrev pub magic : List ℕ
magic = 84 ∷ 83 ∷ 75 ∷ 81 ∷ []

abbrev pub max_message_bytes : ℕ
max_message_bytes = 10485760

pub data FrameError : Type 0 where
  too_large : ℕ → FrameError
  too_short : FrameError
  bad_magic : FrameError
  malformed : FrameError
  connection_closed : FrameError

pub data Result (A : Type 0) : Type 0 where
  ok : A → Result A
  err : FrameError → Result A

-- struct.pack(">I", n)
unfoldable pub pack : ℕ → List ℕ
pack n = (n / 16777216) % 256 ∷ (n / 65536) % 256 ∷ (n / 256) % 256 ∷ n % 256 ∷ []

-- struct.unpack_from(">I", data, 4)
unfoldable pub unpack_from_4 : List ℕ → ℕ
unpack_from_4 (m ∷ a ∷ g ∷ i ∷ b ∷ c ∷ d ∷ e ∷ rest) = ((b * 256 + c) * 256 + d) * 256 + e
unpack_from_4 _ = 0

unfoldable pub bytes_eq : List ℕ → List ℕ → Bool
bytes_eq [] [] = true
bytes_eq (a ∷ more) (b ∷ bs) = a == b && bytes_eq more bs
bytes_eq _ _ = false

-- A connection: the bytes that are still to come, and how many of them the calls of `recv` find there.
-- `recv` gives at least one byte while there are any.
pub record Socket : Type 0 where
  pub stream : List ℕ
  pub arrivals : List ℕ

-- How many bytes are there, less one, and the rest of the arrivals.
unfoldable pub available : List ℕ → ℕ × List ℕ
available [] = (0, [])
available (k ∷ ks) = (k, ks)

unfoldable pub recv : ℕ → Socket → Socket × List ℕ
unfolding available
recv n s =
    let (extra, later) = available s.arrivals in
    let count = min n (suc extra) in
    (record { stream = drop count s.stream; arrivals = later }, take count s.stream)

-- The bytes that `sendall` gets; a message that cannot be encoded sends none.
unfoldable pub sent_bytes : Result (List ℕ) → List ℕ
sent_bytes (ok frame) = frame
sent_bytes (err e) = []

is_empty : List ℕ → Bool
is_empty [] = true
is_empty (b ∷ bs) = false

-- The loop of `recv_exactly`; each pass adds a byte at least.
unfoldable pub recv_loop : ℕ → ℕ → List ℕ → Socket → Socket × Result (List ℕ)
unfolding recv is_empty
recv_loop zero n buf s = (s, ok buf)
recv_loop (suc fuel) n buf s =
    let (after, chunk) = recv (n - length buf) s in
    let rest = recv_loop fuel n (buf ++ chunk) after in
    if ltb (length buf) n
    then (if is_empty chunk then (after, err connection_closed) else rest)
    else (s, ok buf)

unfoldable pub recv_exactly : ℕ → Socket → Socket × Result (List ℕ)
unfolding recv_loop
recv_exactly n s = recv_loop n n [] s

module _ {M : Type 0} (dumps : M → List ℕ) (loads : List ℕ → Option M) where
  unfoldable pub encode_message : M → Result (List ℕ)
  unfolding pack
  encode_message m =
      if ltb max_message_bytes (length (dumps m))
      then err (too_large (length (dumps m)))
      else ok (magic ++ pack (length (dumps m)) ++ dumps m)

  unfoldable pub message_of : List ℕ → Result M
  message_of body = elim (loads body) [ none ↦ err malformed | some m ↦ ok m ]

  unfoldable pub decode_frame : List ℕ → Result M
  unfolding message_of unpack_from_4 bytes_eq
  decode_frame frame =
      if ltb (length frame) header_size
      then err too_short
      else if not (bytes_eq (take 4 frame) magic)
      then err bad_magic
      else message_of (take (unpack_from_4 frame) (drop header_size frame))

  read_body_of : Socket × Result (List ℕ) → Socket × Result M
  unfolding message_of
  read_body_of (s, err e) = (s, err e)
  read_body_of (s, ok body) = (s, message_of body)

  -- `read_message` once the header is there.
  unfoldable pub read_body : Socket → List ℕ → Socket × Result M
  unfolding read_body_of recv_exactly unpack_from_4 bytes_eq
  read_body s header =
      if not (bytes_eq (take 4 header) magic)
      then (s, err bad_magic)
      else if ltb max_message_bytes (unpack_from_4 header)
      then (s, err (too_large (unpack_from_4 header)))
      else read_body_of (recv_exactly (unpack_from_4 header) s)

  read_after : Socket × Result (List ℕ) → Socket × Result M
  unfolding read_body
  read_after (s, err e) = (s, err e)
  read_after (s, ok header) = read_body s header

  unfoldable pub read_message : Socket → Socket × Result M
  unfolding read_after recv_exactly
  read_message s = read_after (recv_exactly header_size s)
