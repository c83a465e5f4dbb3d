-- ===== src/Images/Store.antt =====
-- store.py: `ImageStore` and `copy_image`, with `Manifest` of manifest.py. The files of the blobs are
-- a map from their names, and index.json is the list of its descriptors. `encode` stands for the
-- text of `to_json` of a manifest, and `decode` for `from_json` of a text, `none` if it fails.
pub mod Blobs
pub mod Images
use container_platform.Prelude.Dict
use container_platform.Prelude.Dict.{Dict}
use container_platform.Prelude.{
  ℕ, suc, ◌+◌, String, Bool, true, false, not, ◌&&◌, ◌||◌, Option, none, some, List, [], ◌∷◌, ◌++◌,
  length, str_eq, if◌then◌else◌,
}
use container_platform.Images.Digest.{
  Bytes, Failure, Result, digest_of, digest_path, Descriptor, find, upsert,
}

pub record Manifest : Type 0 where
  pub config : Descriptor
  pub layers : List Descriptor
  pub annotations : Dict String
  pub subject : Option Descriptor

pub record ImageStore : Type 0 where
  pub blobs : Dict Bytes
  pub manifests : List Descriptor

-- The functions of other libraries.
pub record Codec : Type 0 where
  pub hash : Bytes → String
  pub encode : Manifest → Bytes
  pub decode : Bytes → Option Manifest

unfoldable pub then_result : {A B : Type 0} → Result A → (A → Result B) → Result B
then_result (Result.ok a) f = f a
then_result (Result.err e) f = Result.err e

abbrev pub is_some : {A : Type 0} → Option A → Bool
is_some none = false
is_some (some a) = true

unfoldable pub has_blob : String → ImageStore → Result Bool
unfolding then_result
has_blob digest s =
    then_result (digest_path digest) (λ path. Result.ok (is_some (Dict.lookup path s.blobs)))

unfoldable pub write_blob : String → Bytes → ImageStore → ImageStore
write_blob path blob s =
    if is_some (Dict.lookup path s.blobs)
    then s
    else record s { blobs = Dict.insert path blob s.blobs }

unfoldable pub blob_descriptor : Codec → Bytes → Descriptor
unfolding digest_of
blob_descriptor c blob = record {
  media_type = "application/octet-stream";
  digest = digest_of c.hash blob;
  size = length blob;
  annotations = [];
}

unfoldable pub put_path :
    Codec → Bytes → Result String → ImageStore → ImageStore × Result Descriptor
unfolding write_blob blob_descriptor
put_path c blob (Result.ok path) s = (write_blob path blob s, Result.ok (blob_descriptor c blob))
put_path c blob (Result.err e) s = (s, Result.err e)

unfoldable pub put_blob : Codec → Bytes → ImageStore → ImageStore × Result Descriptor
unfolding put_path digest_of
put_blob c blob s = put_path c blob (digest_path (digest_of c.hash blob)) s

unfoldable pub verified : Codec → String → Option Bytes → Result Bytes
unfolding digest_of
verified c digest none = Result.err (Failure.missing digest)
verified c digest (some blob) =
    if str_eq (digest_of c.hash blob) digest
    then Result.ok blob
    else Result.err (Failure.unverified digest)

unfoldable pub get_blob : Codec → String → ImageStore → Result Bytes
unfolding verified then_result
get_blob c digest s =
    then_result (digest_path digest) (λ path. verified c digest (Dict.lookup path s.blobs))

-- The blobs of a manifest are there: the first that is not is the error.
unfoldable pub check_blobs : List Descriptor → ImageStore → Result Unit
unfolding has_blob then_result
check_blobs [] s = Result.ok tt
check_blobs (d ∷ ds) s =
    let rest = check_blobs ds s in
    then_result (has_blob d.digest s)
      (λ there. if there then rest else Result.err (Failure.missing d.digest))

unfoldable pub manifest_descriptor : Codec → Manifest → Descriptor
unfolding digest_of
manifest_descriptor c m = record {
  media_type = "application/vnd.oci.image.manifest.v1+json";
  digest = digest_of c.hash (c.encode m);
  size = length (c.encode m);
  annotations = [];
}

-- The manifest is stored, and the tag is bound to it.
unfoldable pub bind_after :
    Codec → String → Manifest → ImageStore × Result Descriptor → ImageStore × Result Descriptor
unfolding manifest_descriptor upsert
bind_after c reference m (s, Result.err e) = (s, Result.err e)
bind_after c reference m (s, Result.ok d) = (
  record s { manifests = upsert reference (manifest_descriptor c m) s.manifests },
  Result.ok (manifest_descriptor c m),
)

unfoldable pub bind_tag : Codec → String → Manifest → ImageStore → ImageStore × Result Descriptor
unfolding bind_after put_blob
bind_tag c reference m s = bind_after c reference m (put_blob c (c.encode m) s)

unfoldable pub put_checked :
    Codec → String → Manifest → Result Unit → ImageStore → ImageStore × Result Descriptor
unfolding bind_tag
put_checked c reference m (Result.err e) s = (s, Result.err e)
put_checked c reference m (Result.ok x) s = bind_tag c reference m s

unfoldable pub put_image : Codec → String → Manifest → ImageStore → ImageStore × Result Descriptor
unfolding put_checked check_blobs
put_image c reference m s =
    put_checked c reference m (check_blobs (m.layers ++ (m.config ∷ [])) s) s

unfoldable pub read_manifest : Option Manifest → Result Manifest
read_manifest none = Result.err Failure.malformed
read_manifest (some m) = Result.ok m

unfoldable pub decoded : Codec → String → Bytes → Result Manifest
unfolding read_manifest
decoded c reference blob = read_manifest (c.decode blob)

unfoldable pub manifest_at : Codec → String → ImageStore → Result Manifest
unfolding get_blob then_result decoded
manifest_at c digest s = then_result (get_blob c digest s) (decoded c digest)

-- `is_digest` is reference.startswith("sha256:").
unfoldable pub manifest_found :
    Codec → String → Bool → Option Descriptor → ImageStore → Result Manifest
unfolding manifest_at has_blob then_result
manifest_found c reference is_digest (some d) s = manifest_at c d.digest s
manifest_found c reference false none s = Result.err (Failure.no_such_image reference)
manifest_found c reference true none s = then_result (has_blob reference s) (λ there.
    if there then manifest_at c reference s else Result.err (Failure.no_such_image reference))

unfoldable pub get_manifest : Codec → String → Bool → ImageStore → Result Manifest
unfolding manifest_found find
get_manifest c reference is_digest s =
    manifest_found c reference is_digest (find reference s.manifests) s
