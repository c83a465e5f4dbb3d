-- ===== src/Container/Netlink.antt =====
-- netlink.py: the attributes of rtnetlink messages. Bytes are numbers below 256, in the little-endian
-- order of `struct` on the machines that the runtime is for. A length or a kind that does not fit in
-- 16 bits makes `struct.pack` raise, which is `none`. What is left of the buffer at an offset is a
-- list, and the loop has fuel: the length of the buffer, as each pass goes on by 4 bytes at least.
pub mod Attributes
use container_platform.Prelude.{
  ℕ, zero, suc, ◌+◌, ◌-◌, ◌*◌, ◌/◌, ◌%◌, Bool, true, false, ◌||◌, ◌&&◌, Option, none, some, List,
  [], ◌∷◌, ◌++◌, length, take, drop, ltb, ◌==◌, if◌then◌else◌,
}

abbrev pub Bytes : Type 0
Bytes = List ℕ

-- (length + 3) & ~3
unfoldable pub align : ℕ → ℕ
align n = (n + 3) / 4 * 4

abbrev pub zeros : ℕ → Bytes
zeros zero = []
zeros (suc n) = 0 ∷ zeros n

unfoldable pub attribute : ℕ → Bytes → Option Bytes
unfolding align
attribute kind payload =
    let n = length payload + 4 in
    if ltb n 65536 && ltb kind 65536
    then some (n % 256 ∷ n / 256 ∷ kind % 256 ∷ kind / 256 ∷ (payload ++ zeros (align n - n)))
    else none

abbrev pub Attributes : Type 0
Attributes = List (ℕ × Bytes)

-- out[kind] = payload
unfoldable pub set_attribute : ℕ → Bytes → Attributes → Attributes
set_attribute kind payload [] = (kind, payload) ∷ []
set_attribute kind payload ((k, p) ∷ out) =
    let rest = set_attribute kind payload out in
    if k == kind then (kind, payload) ∷ out else (k, p) ∷ rest

unfoldable pub parse_from : ℕ → Bytes → Attributes → Attributes
unfolding align set_attribute
parse_from (suc fuel) (a ∷ b ∷ c ∷ d ∷ body) out =
    let n = a + 256 * b in
    let rest =
      parse_from fuel (drop (align n - 4) body)
        (set_attribute (c + 256 * d) (take (n - 4) body) out) in
    if ltb n 4 || ltb (length body + 4) n then out else rest
parse_from fuel buffer out = out

unfoldable pub parse_attributes : Bytes → Attributes
unfolding parse_from
parse_attributes buffer = parse_from (length buffer) buffer []
