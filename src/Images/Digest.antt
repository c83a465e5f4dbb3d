-- ===== src/Images/Digest.antt =====
-- digest.py and manifest.py: digests as texts, descriptors, and the index of tags. `hash` stands for
-- `sha256_hex`. A character is read by its code.
pub mod Tags
use Prim.Native.String
use Prim.Native.Char.{Char, code}
use container_platform.Prelude.Dict
use container_platform.Prelude.Dict.{Dict}
use container_platform.Prelude.{
  ℕ, suc, ◌+◌, String, Bool, true, false, not, ◌&&◌, ◌||◌, Option, none, some, List, [], ◌∷◌, leb,
  ◌==◌, str_eq, if◌then◌else◌,
}

abbrev pub Bytes : Type 0
Bytes = List ℕ

pub data Failure : Type 0 where
  malformed unsupported : Failure
  missing unverified : String → Failure
  no_such_image : String → Failure

pub data Result (A : Type 0) : Type 0 where
  ok : A → Result A
  err : Failure → Result A

unfoldable pub digest_of : (Bytes → String) → Bytes → String
digest_of hash blob = String.◌∷◌ "s" (
    String.◌∷◌ "h" (
      String.◌∷◌ "a"
        (String.◌∷◌ "2" (String.◌∷◌ "5" (String.◌∷◌ "6" (String.◌∷◌ ":" (hash blob)))))))

-- digest.split(":", 1)
unfoldable pub split_colon : String → Option (String × String)
split_colon String.[] = none
split_colon (String.◌∷◌ c s) =
    let rest = split_colon s in
    if code c == 58
    then some ("", s)
    else elim rest [ none ↦ none | some p ↦ some (String.◌∷◌ c p.0, p.1) ]

unfoldable pub is_hex : Char → Bool
is_hex c = leb 48 (code c) && leb (code c) 57 || leb 97 (code c) && leb (code c) 102

unfoldable pub all_hex : String → Bool
unfolding is_hex
all_hex String.[] = true
all_hex (String.◌∷◌ c s) = is_hex c && all_hex s

unfoldable pub text_length : String → ℕ
text_length String.[] = 0
text_length (String.◌∷◌ c s) = suc (text_length s)

-- The encoded part, which names the file.
unfoldable pub path_of : Option (String × String) → Result String
unfolding all_hex text_length
path_of none = Result.err Failure.malformed
path_of (some (algorithm, encoded)) =
    if not (str_eq algorithm "sha256")
    then Result.err Failure.unsupported
    else if text_length encoded == 64 && all_hex encoded
    then Result.ok encoded
    else Result.err Failure.malformed

unfoldable pub digest_path : String → Result String
unfolding path_of split_colon
digest_path digest = path_of (split_colon digest)

pub record Descriptor : Type 0 where
  pub media_type : String
  pub digest : String
  pub size : ℕ
  pub annotations : Dict String

unfoldable pub annotation_ref : String
annotation_ref = "org.opencontainers.image.ref.name"

-- descriptor.annotations.get(ANNOTATION_REF) == reference
unfoldable pub is_named : String → Option String → Bool
is_named reference none = false
is_named reference (some name) = str_eq name reference

unfoldable pub has_ref : String → Descriptor → Bool
unfolding is_named annotation_ref
has_ref reference d = is_named reference (Dict.lookup annotation_ref d.annotations)

unfoldable pub find : String → List Descriptor → Option Descriptor
unfolding has_ref
find reference [] = none
find reference (d ∷ ds) =
    let rest = find reference ds in if has_ref reference d then some d else rest

unfoldable pub tagged : String → Descriptor → Descriptor
unfolding annotation_ref
tagged reference d = record d { annotations = Dict.insert annotation_ref reference d.annotations }

unfoldable pub upsert : String → Descriptor → List Descriptor → List Descriptor
unfolding has_ref tagged
upsert reference d [] = tagged reference d ∷ []
upsert reference d (x ∷ xs) =
    let rest = upsert reference d xs in
    if has_ref reference x then tagged reference d ∷ xs else x ∷ rest

-- The identity of the file system after the layers; `join` is f"{result} {diff_id}" as bytes.
unfoldable pub fold_chain :
    (Bytes → String) → (String → String → Bytes) → String → List String → String
unfolding digest_of
fold_chain hash join result [] = result
fold_chain hash join result (diff ∷ diffs) =
    fold_chain hash join (digest_of hash (join result diff)) diffs

unfoldable pub chain_id : (Bytes → String) → (String → String → Bytes) → List String → Option String
unfolding fold_chain
chain_id hash join [] = none
chain_id hash join (diff ∷ diffs) = some (fold_chain hash join diff diffs)
