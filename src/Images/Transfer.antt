-- ===== src/Images/Transfer.antt =====
-- store.py: `copy_image`, and what it reports.
pub mod Copying
use container_platform.Prelude.{
  ℕ, suc, ◌+◌, String, Bool, true, false, Option, none, some, List, [], ◌∷◌, ◌++◌,
}
use container_platform.Images.Digest.{Failure, Result, Descriptor, Bytes}
use container_platform.Images.Store.{
  Manifest, ImageStore, Codec, has_blob, put_blob, get_blob, bind_tag, get_manifest,
}

pub record TransferStats : Type 0 where
  pub blobs_sent : ℕ
  pub blobs_skipped : ℕ
  pub bytes_sent : ℕ
  pub bytes_skipped : ℕ
  pub sent_digests : List String

unfoldable pub no_transfer : TransferStats
no_transfer = record {
  blobs_sent = 0;
  blobs_skipped = 0;
  bytes_sent = 0;
  bytes_skipped = 0;
  sent_digests = [];
}

unfoldable pub count_skipped : Descriptor → TransferStats → TransferStats
count_skipped d t = record t {
  blobs_skipped = t.blobs_skipped + 1;
  bytes_skipped = t.bytes_skipped + d.size;
}

unfoldable pub count_sent : Descriptor → TransferStats → TransferStats
count_sent d t = record t {
  blobs_sent = t.blobs_sent + 1;
  bytes_sent = t.bytes_sent + d.size;
  sent_digests = t.sent_digests ++ (d.digest ∷ []);
}

-- A pass of the loop that stops where something raises; what was written stays.
unfoldable pub and_then :
    ImageStore × Result TransferStats
    → (ImageStore → TransferStats → ImageStore × Result TransferStats)
    → ImageStore × Result TransferStats
and_then (s, Result.ok t) f = f s t
and_then (s, Result.err e) f = (s, Result.err e)

unfoldable pub after_put :
    Descriptor → TransferStats → ImageStore × Result Descriptor → ImageStore × Result TransferStats
unfolding count_sent
after_put d t (s, Result.ok x) = (s, Result.ok (count_sent d t))
after_put d t (s, Result.err e) = (s, Result.err e)

unfoldable pub send_got :
    Codec
    → Descriptor
    → Result Bytes
    → ImageStore
    → TransferStats
    → ImageStore × Result TransferStats
unfolding after_put put_blob
send_got c d (Result.err e) dst t = (dst, Result.err e)
send_got c d (Result.ok blob) dst t = after_put d t (put_blob c blob dst)

unfoldable pub copy_asked :
    Codec
    → ImageStore
    → Descriptor
    → Result Bool
    → ImageStore
    → TransferStats
    → ImageStore × Result TransferStats
unfolding send_got get_blob count_skipped
copy_asked c src d (Result.err e) dst t = (dst, Result.err e)
copy_asked c src d (Result.ok true) dst t = (dst, Result.ok (count_skipped d t))
copy_asked c src d (Result.ok false) dst t = send_got c d (get_blob c d.digest src) dst t

unfoldable pub copy_blobs :
    Codec
    → ImageStore
    → List Descriptor
    → ImageStore
    → TransferStats
    → ImageStore × Result TransferStats
unfolding and_then copy_asked has_blob
copy_blobs c src [] dst t = (dst, Result.ok t)
copy_blobs c src (d ∷ ds) dst t =
    and_then (copy_asked c src d (has_blob d.digest dst) dst t) (λ s u. copy_blobs c src ds s u)

-- The manifest and the tag come last.
unfoldable pub finish_bind :
    TransferStats → ImageStore × Result Descriptor → ImageStore × Result TransferStats
finish_bind t (s, Result.ok d) = (s, Result.ok t)
finish_bind t (s, Result.err e) = (s, Result.err e)

unfoldable pub copy_manifest :
    Codec → String → ImageStore → Result Manifest → ImageStore → ImageStore × Result TransferStats
unfolding copy_blobs and_then finish_bind bind_tag no_transfer
copy_manifest c reference src (Result.err e) dst = (dst, Result.err e)
copy_manifest c reference src (Result.ok m) dst =
    and_then (copy_blobs c src (m.layers ++ (m.config ∷ [])) dst no_transfer)
      (λ s t. finish_bind t (bind_tag c reference m s))

unfoldable pub copy_image :
    Codec → String → Bool → ImageStore → ImageStore → ImageStore × Result TransferStats
unfolding copy_manifest get_manifest
copy_image c reference is_digest src dst =
    copy_manifest c reference src (get_manifest c reference is_digest src) dst
