-- ===== src/Images/Examples.antt =====
-- A store with one image, and a copy of it.
use container_platform.Prelude.Dict
use container_platform.Prelude.Dict.{AllEntries}
use container_platform.Prelude.{String, ◌≡◌, refl, false, some, [], ◌∷◌, ◌++◌, All, none}
use container_platform.Images.Digest.{
  Bytes, Result, digest_of, digest_path, path_of, split_colon, is_hex, all_hex, text_length,
  Descriptor, annotation_ref, is_named, has_ref, find, tagged, upsert,
}
use container_platform.Images.Store.{
  Manifest, ImageStore, Codec, then_result, has_blob, write_blob, blob_descriptor, put_path,
  put_blob, verified, get_blob, check_blobs, manifest_descriptor, bind_after, bind_tag, put_checked,
  put_image, read_manifest, decoded, manifest_at, manifest_found, get_manifest,
}
use container_platform.Images.Store.Blobs.{IsHash, IsAddressed}
use container_platform.Images.Store.Images.{IsFree, get_manifest-put_image}
use container_platform.Images.Transfer.{
  TransferStats, no_transfer, count_skipped, count_sent, and_then, after_put, send_got, copy_asked,
  copy_blobs, finish_bind, copy_manifest, copy_image,
}
use container_platform.Images.Transfer.Copying.{copy_image_twice, IsThere}

-- A hash that tells the empty blob from the others.
abbrev toy_hash : Bytes → String
toy_hash [] = "0000000000000000000000000000000000000000000000000000000000000000"
toy_hash (x ∷ xs) = "1111111111111111111111111111111111111111111111111111111111111111"

abbrev layer : Descriptor
layer = record {
  media_type = "layer";
  digest = "sha256:0000000000000000000000000000000000000000000000000000000000000000";
  size = 0;
  annotations = [];
}

abbrev image : Manifest
image = record { config = layer; layers = layer ∷ []; annotations = []; subject = none }

abbrev toy : Codec
toy = record { hash = toy_hash; encode = λ m. 7 ∷ []; decode = λ b. some image }

abbrev with_layer : ImageStore
with_layer = record { blobs = (toy_hash [], []) ∷ []; manifests = [] }

abbrev empty : ImageStore
empty = record { blobs = []; manifests = [] }

program : Unit {0}
unfolding digest_of digest_path path_of split_colon is_hex all_hex text_length annotation_ref
    is_named has_ref find tagged upsert then_result has_blob write_blob blob_descriptor put_path
    put_blob verified get_blob check_blobs manifest_descriptor bind_after bind_tag put_checked
    put_image read_manifest decoded manifest_at manifest_found get_manifest no_transfer
    count_skipped count_sent and_then after_put send_got copy_asked copy_blobs finish_bind
    copy_manifest copy_image Dict.lookup Dict.insert
program = tt

toy-IsHash : IsHash toy
unfolding program
toy-IsHash [] = (refl, refl)
toy-IsHash (x ∷ xs) = (refl, refl)

toy-IsFree : IsFree toy (7 ∷ []) with_layer
unfolding program
toy-IsFree x e = cc

get_manifest-put_image_example :
    ((put_image toy "web" image with_layer).1 ≡ Result.ok (manifest_descriptor toy image))
    × (get_manifest toy "web" false (put_image toy "web" image with_layer).0 ≡ Result.ok image)
unfolding program
get_manifest-put_image_example =
    get_manifest-put_image toy "web" false image with_layer toy-IsHash refl toy-IsFree refl

abbrev source : ImageStore
source = (put_image toy "web" image with_layer).0

copy_image_twice_example :
    (s : ImageStore) × (u : TransferStats) × (copy_image toy "web" false source empty
      ≡ (s, Result.ok u))
    × All (IsThere toy s) (image.layers ++ (image.config ∷ []))
    × IsAddressed toy s
    × ((t : ImageStore) × (w : TransferStats) × (copy_image toy "web" false source s
          ≡ (t, Result.ok w))
        × (w.blobs_sent ≡ 0)
        × (w.bytes_sent ≡ 0))
unfolding program
copy_image_twice_example =
    copy_image_twice toy "web" false source empty image toy-IsHash refl
      (([], refl, refl), (([], refl, refl), tt)) tt

-- The first copy sends the layer once; the config is the same blob.
sent_once :
    (copy_image toy "web" false source empty).1
    ≡ Result.ok (record {
      blobs_sent = 1;
      blobs_skipped = 1;
      bytes_sent = 0;
      bytes_skipped = 0;
      sent_digests = layer.digest ∷ [];
    })
unfolding program
sent_once = refl
