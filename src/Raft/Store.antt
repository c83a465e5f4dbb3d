-- ===== src/Raft/Store.antt =====
-- store/kv.py: the key-value state machine, and the commands that rpc/server.py proposes for it.
-- A text is a list of characters. Of `str.upper` only what decides a comparison with SET, DEL or NOP
-- is modelled: besides the small letters, the long s is the one character that becomes a letter of
-- these words.
pub mod Commands
use Prim.Native.Char.{Char, code}
use Prim.Native.String
use container_platform.Prelude.Dict
use container_platform.Prelude.Dict.{Dict}
use container_platform.Prelude.{
  ℕ, zero, suc, ◌-◌, String, Bool, true, false, ◌&&◌, Option, none, some, List, [], ◌∷◌, leb, ◌==◌,
  if◌then◌else◌, length,
}

abbrev pub is_space : Char → Bool
is_space c = code c == 32

-- The text up to the first space, and the text behind it if there is a space.
unfoldable pub cut : String → String × Option String
cut String.[] = ("", none)
cut (String.◌∷◌ c s) =
    let rest = cut s in if is_space c then ("", some s) else (String.◌∷◌ c rest.0, rest.1)

-- `s.split(" ", n)`
unfoldable pub split : ℕ → String → List String
unfolding cut
split zero s = s ∷ []
split (suc n) s = elim (cut s).1 [ none ↦ (cut s).0 ∷ [] | some r ↦ (cut s).0 ∷ split n r ]

upper : ℕ → ℕ
upper c = if leb b'a' c && leb c b'z' then c - 32 else if c == 0x17f then b'S' else c

-- `s.upper() == word`, for a word of ASCII capitals.
unfoldable pub upper_is : String → String → Bool
unfolding upper
upper_is String.[] String.[] = true
upper_is (String.◌∷◌ c s) (String.◌∷◌ d t) = upper (code c) == code d && upper_is s t
upper_is s t = false

unfoldable pub store_parts : List String → Dict String → Dict String
unfolding upper_is
store_parts (op ∷ key ∷ value ∷ rest) d =
    if upper_is op "SET"
    then Dict.insert key value d
    else if upper_is op "DEL"
    then Dict.remove key d
    else d
store_parts (op ∷ key ∷ []) d =
    if upper_is op "SET" then d else if upper_is op "DEL" then Dict.remove key d else d
store_parts _ d = d

-- `KVStore.apply`
unfoldable pub apply : String → Dict String → Dict String
unfolding split store_parts
apply command d = store_parts (split 2 command) d

-- `KVStore.get`, `snapshot`, `restore` and `__len__`.
unfoldable pub get : String → Dict String → Option String
get key d = Dict.lookup key d

unfoldable pub snapshot : Dict String → Dict String
snapshot d = d

unfoldable pub restore : Dict String → Dict String → Dict String
restore s d = s

unfoldable pub size : Dict String → ℕ
size d = length d

-- The text of `f"{w} {s}"`.
unfoldable pub spaced : String → String → String
spaced String.[] s = String.◌∷◌ " " s
spaced (String.◌∷◌ c w) s = String.◌∷◌ c (spaced w s)

-- The commands of `KVServicer.Set` and `KVServicer.Del`.
unfoldable pub set_command : String → String → String
unfolding spaced
set_command key value = spaced "SET" (spaced key value)

unfoldable pub del_command : String → String
unfolding spaced
del_command key = spaced "DEL" key
