-- ===== src/Images/Store/Blobs.antt =====
-- store.py: blobs are named by their hashes, and are not lost.
use container_platform.Prelude.Dict
use container_platform.Prelude.Dict.{
  AllEntries, AllEntries-insert, lookup-AllEntries, lookup-insert,
}
use container_platform.Prelude.{
  String, ◌≡◌, refl, ap, ◌∙◌, sym, inl, inr, Bool, true, false, ◌||◌, Option, some, arith, str_eq,
  if◌then◌else◌, if-branches, Bool-cases, eq_iff, ◌==◌,
}
use container_platform.Images.Digest.{
  Bytes, Result, digest_of, digest_path, path_of, split_colon, all_hex, text_length,
}
use container_platform.Images.Store.{
  ImageStore, Codec, is_some, has_blob, write_blob, put_path, put_blob, blob_descriptor, verified,
  get_blob, then_result,
}

-- The hash is written with 64 hexadecimal digits.
abbrev pub IsHash : Codec → Type 0
IsHash c = (b : Bytes) → (text_length (c.hash b) ≡ 64) × (all_hex (c.hash b) ≡ true)

pub digest_path-digest_of :
    (c : Codec) (b : Bytes) → IsHash c → digest_path (digest_of c.hash b) ≡ Result.ok (c.hash b)
unfolding digest_path path_of split_colon digest_of
digest_path-digest_of c b hex =
    let e : (text_length (c.hash b) == 64) ≡ true = ground (arith, (hex b).0) in
    rw (e, (hex b).1) refl

-- Every blob is under its own hash.
abbrev pub IsAddressed : Codec → ImageStore → Type 0
IsAddressed c s = AllEntries (λ path b. c.hash b ≡ path) s.blobs

abbrev pub has_path : String → ImageStore → Bool
has_path path s = is_some (Dict.lookup path s.blobs)

pub write_blob-IsAddressed :
    (c : Codec) (b : Bytes) (s : ImageStore)
    → IsAddressed c s
    → IsAddressed c (write_blob (c.hash b) b s)
unfolding write_blob
write_blob-IsAddressed c b s v =
    if-branches (IsAddressed c) (has_path (c.hash b) s) s _ v
      (AllEntries-insert (λ path x. c.hash x ≡ path) (c.hash b) b s.blobs refl v)

is_some-if :
    {A : Type 0} (b : Bool) (a : A) (o : Option A)
    → is_some (if b then some a else o) ≡ (b || is_some o)
is_some-if true a o = refl
is_some-if false a o = refl

-- A write keeps all files, and makes its own.
pub write_blob-has_path :
    (path k : String) (b : Bytes) (s : ImageStore)
    → has_path k (write_blob path b s) ≡ (str_eq path k || has_path k s)
unfolding write_blob
write_blob-has_path path k b s = elim (Bool-cases (has_path path s)) [
  | inl there ↦ elim (Bool-cases (str_eq path k)) [
    | inl same ↦
        let e : has_path k s ≡ true =
          ap (λ j. has_path j s) (sym ((eq_iff path k).0 same)) ∙ there in
        rw (there, same) e
    | inr other ↦ rw (there, other) refl
  ]
  | inr missing ↦
      let l : Dict.lookup k (Dict.insert path b s.blobs)
          ≡ (if str_eq path k then some b else Dict.lookup k s.blobs) =
        lookup-insert path k b s.blobs in
      rw missing (ap is_some l ∙ is_some-if (str_eq path k) b (Dict.lookup k s.blobs))
]

pub put_blob_lem :
    (c : Codec) (b : Bytes) (s : ImageStore)
    → IsHash c
    → put_blob c b s ≡ (write_blob (c.hash b) b s, Result.ok (blob_descriptor c b))
unfolding put_blob put_path
put_blob_lem c b s hex = ap (λ p. put_path c b p s) (digest_path-digest_of c b hex)

pub has_blob_lem :
    (c : Codec) (b : Bytes) (s : ImageStore)
    → IsHash c
    → has_blob (digest_of c.hash b) s ≡ Result.ok (has_path (c.hash b) s)
unfolding has_blob then_result
has_blob_lem c b s hex =
    ap (λ p. then_result p (λ path. Result.ok (has_path path s))) (digest_path-digest_of c b hex)

verified_lem :
    (c : Codec) (b x : Bytes)
    → c.hash x ≡ c.hash b
    → verified c (digest_of c.hash b) (some x) ≡ Result.ok x
unfolding verified
verified_lem c b x same =
    let e : digest_of c.hash x ≡ digest_of c.hash b = unfold digest_of in rw same refl in
    rw ((eq_iff (digest_of c.hash x) (digest_of c.hash b)).1 e) refl

-- A blob that is there is given, and verified.
pub get_blob_lem :
    (c : Codec) (b x : Bytes) (s : ImageStore)
    → IsHash c
    → c.hash x ≡ c.hash b
    → Dict.lookup (c.hash b) s.blobs ≡ some x
    → get_blob c (digest_of c.hash b) s ≡ Result.ok x
unfolding get_blob then_result
get_blob_lem c b x s hex same there =
    ap (λ p. then_result p (λ path. verified c (digest_of c.hash b) (Dict.lookup path s.blobs)))
      (digest_path-digest_of c b hex)
    ∙ ap (verified c (digest_of c.hash b)) there
    ∙ verified_lem c b x same
