-- ===== src/Images/Transfer/Copying.antt =====
-- store.py: after `copy_image` the destination has the image, and a second copy sends nothing.
use container_platform.Prelude.Dict
use container_platform.Prelude.{
  String, ◌≡◌, refl, ap, ◌∙◌, inl, inr, Bool, true, false, ◌||◌, some, List, [], ◌∷◌, ◌++◌, All,
  All-map, str_eq, Bool-cases, eq_iff,
}
use container_platform.Images.Digest.{Bytes, Result, digest_of, Descriptor, upsert}
use container_platform.Images.Store.{
  Manifest, ImageStore, Codec, has_blob, write_blob, get_blob, manifest_descriptor, bind_after,
  bind_tag, get_manifest,
}
use container_platform.Images.Store.Blobs.{
  IsHash, IsAddressed, has_path, write_blob-IsAddressed, write_blob-has_path, put_blob_lem,
  has_blob_lem, get_blob_lem,
}
use container_platform.Images.Transfer.{
  TransferStats, no_transfer, count_skipped, count_sent, and_then, after_put, send_got, copy_asked,
  copy_blobs, finish_bind, copy_manifest, copy_image,
}

-- The blob of a descriptor is in the store, under its hash.
abbrev pub IsStored : Codec → ImageStore → Descriptor → Type 0
IsStored c s d =
    (b : Bytes) × (d.digest ≡ digest_of c.hash b) × (Dict.lookup (c.hash b) s.blobs ≡ some b)

-- All files of the first store are in the second.
abbrev pub IsWithin : ImageStore → ImageStore → Type 0
IsWithin s t = (k : String) → has_path k s ≡ true → has_path k t ≡ true

-- The destination has the blob.
abbrev pub IsThere : Codec → ImageStore → Descriptor → Type 0
IsThere c s d = (b : Bytes) × (d.digest ≡ digest_of c.hash b) × (has_path (c.hash b) s ≡ true)

write_blob-IsWithin :
    (path : String) (b : Bytes) (s : ImageStore) → IsWithin s (write_blob path b s)
write_blob-IsWithin path b s k there =
    write_blob-has_path path k b s ∙ (or_right (str_eq path k) there)
  where
    or_right : (a : Bool) {d : Bool} → d ≡ true → (a || d) ≡ true
    or_right true e = refl
    or_right false e = e

-- What the loop does with one descriptor.
pub record IsCopied (c : Codec) (d : Descriptor) (dst s : ImageStore) : Type 0 where
  pub within : IsWithin dst s
  pub there : IsThere c s d
  pub addressed : IsAddressed c s

copy_one :
    (c : Codec) (src dst : ImageStore) (d : Descriptor) (t : TransferStats)
    → IsHash c
    → IsStored c src d
    → IsAddressed c dst
    → (s : ImageStore) × (u : TransferStats) × (copy_asked c src d (has_blob d.digest dst) dst t
        ≡ (s, Result.ok u))
      × IsCopied c d dst s
unfolding copy_asked send_got after_put
copy_one c src dst d t hex (b, e, stored) v =
    let asked : has_blob d.digest dst ≡ Result.ok (has_path (c.hash b) dst) =
      ap (λ x. has_blob x dst) e ∙ has_blob_lem c b dst hex in
    elim (Bool-cases (has_path (c.hash b) dst)) [
      | inl there ↦ (
        dst,
        count_skipped d t,
        ap (λ r. copy_asked c src d r dst t) (asked ∙ ap Result.ok there),
        record { within = λ k h. h; there = (b, e, there); addressed = v },
      )
      | inr missing ↦
          let got : get_blob c d.digest src ≡ Result.ok b =
            ap (λ x. get_blob c x src) e ∙ get_blob_lem c b b src hex refl stored in
          (
            write_blob (c.hash b) b dst,
            count_sent d t,
            ap (λ r. copy_asked c src d r dst t) (asked ∙ ap Result.ok missing)
                ∙ ap (λ r. send_got c d r dst t) got
                ∙ ap (after_put d t) (put_blob_lem c b dst hex),
            record {
              within = write_blob-IsWithin (c.hash b) b dst;
              there = (
                b,
                e,
                write_blob-has_path (c.hash b) (c.hash b) b dst
                    ∙ rw ((eq_iff (c.hash b) (c.hash b)).1 refl) refl,
              );
              addressed = write_blob-IsAddressed c b dst v;
            },
          )
    ]

IsThere-within :
    (c : Codec) (s t : ImageStore) (d : Descriptor) → IsWithin s t → IsThere c s d → IsThere c t d
IsThere-within c s t d within (b, e, there) = (b, e, within (c.hash b) there)

copy_each :
    (c : Codec) (src : ImageStore) (ds : List Descriptor) (dst : ImageStore) (t : TransferStats)
    → IsHash c
    → All (IsStored c src) ds
    → IsAddressed c dst
    → (s : ImageStore) × (u : TransferStats) × (copy_blobs c src ds dst t ≡ (s, Result.ok u))
      × IsWithin dst s
      × All (IsThere c s) ds
      × IsAddressed c s
unfolding copy_blobs and_then
copy_each c src [] dst t hex stored v = (dst, t, refl, (λ k h. h), tt, v)
copy_each c src (d ∷ ds) dst t hex stored v =
    let (s, u, e, one) = copy_one c src dst d t hex stored.0 v in
    let (r, w, f, within, there, addressed) = copy_each c src ds s u hex stored.1 one.addressed in
    (
      r,
      w,
      ap (λ x. and_then x (λ y z. copy_blobs c src ds y z)) e ∙ f,
      (λ k h. within k (one.within k h)),
      (IsThere-within c s r d within one.there, there),
      addressed,
    )

-- Of blobs that are all there, nothing is sent.
copy_nothing :
    (c : Codec) (src : ImageStore) (ds : List Descriptor) (dst : ImageStore) (t : TransferStats)
    → IsHash c
    → All (IsThere c dst) ds
    → (u : TransferStats) × (copy_blobs c src ds dst t ≡ (dst, Result.ok u))
      × (u.blobs_sent ≡ t.blobs_sent)
      × (u.bytes_sent ≡ t.bytes_sent)
unfolding copy_blobs and_then copy_asked count_skipped
copy_nothing c src [] dst t hex there = (t, refl, refl, refl)
copy_nothing c src (d ∷ ds) dst t hex ((b, e, h), there) =
    let asked : has_blob d.digest dst ≡ Result.ok true =
      ap (λ x. has_blob x dst) e ∙ has_blob_lem c b dst hex ∙ ap Result.ok h in
    let (u, f, sent, bytes) = copy_nothing c src ds dst (count_skipped d t) hex there in
    (
      u,
      ap (λ r. and_then (copy_asked c src d r dst t) (λ y z. copy_blobs c src ds y z)) asked ∙ f,
      sent,
      bytes,
    )

bind_tag_lem :
    (c : Codec) (reference : String) (m : Manifest) (s : ImageStore)
    → IsHash c
    → bind_tag c reference m s ≡ (
      record (write_blob (c.hash (c.encode m)) (c.encode m) s) {
        manifests =
            upsert reference
              (manifest_descriptor c m)
              (write_blob (c.hash (c.encode m)) (c.encode m) s).manifests;
      },
      Result.ok (manifest_descriptor c m),
    )
unfolding bind_tag bind_after
bind_tag_lem c reference m s hex = ap (bind_after c reference m) (put_blob_lem c (c.encode m) s hex)

-- The loop has gone through: the manifest and the tag are written.
copy_bound :
    (c : Codec) (reference : String) (src dst s : ImageStore) (u : TransferStats) (m : Manifest)
    → IsHash c
    → copy_blobs c src (m.layers ++ (m.config ∷ [])) dst no_transfer ≡ (s, Result.ok u)
    → IsAddressed c s
    → (t : ImageStore) × (copy_manifest c reference src (Result.ok m) dst ≡ (t, Result.ok u))
      × IsWithin s t
      × IsAddressed c t
unfolding copy_manifest and_then finish_bind
copy_bound c reference src dst s u m hex e v =
    let blob = c.encode m in
    let w = write_blob (c.hash blob) blob s in
    (
      record w { manifests = upsert reference (manifest_descriptor c m) w.manifests },
      ap (λ x. and_then x (λ y z. finish_bind z (bind_tag c reference m y))) e
          ∙ ap (finish_bind u) (bind_tag_lem c reference m s hex),
      write_blob-IsWithin (c.hash blob) blob s,
      write_blob-IsAddressed c blob s v,
    )

-- If the source has the image with all its blobs, and the destination names its blobs by their
-- hashes, then a copy succeeds, the destination then has a file for every blob of the image, all its
-- files are named by their hashes still, and a second copy succeeds and sends no blob and no byte.
pub copy_image_twice :
    (c : Codec) (reference : String) (is_digest : Bool) (src dst : ImageStore) (m : Manifest)
    → IsHash c
    → get_manifest c reference is_digest src ≡ Result.ok m
    → All (IsStored c src) (m.layers ++ (m.config ∷ []))
    → IsAddressed c dst
    → (s : ImageStore) × (u : TransferStats) × (copy_image c reference is_digest src dst
        ≡ (s, Result.ok u))
      × All (IsThere c s) (m.layers ++ (m.config ∷ []))
      × IsAddressed c s
      × ((t : ImageStore) × (w : TransferStats) × (copy_image c reference is_digest src s
            ≡ (t, Result.ok w))
          × (w.blobs_sent ≡ 0)
          × (w.bytes_sent ≡ 0))
unfolding copy_image no_transfer
copy_image_twice c reference is_digest src dst m hex found stored v =
    let ds = m.layers ++ (m.config ∷ []) in
    let (s, u, e, within, there, addressed) = copy_each c src ds dst no_transfer hex stored v in
    let (s', f, wider, addressed') = copy_bound c reference src dst s u m hex e addressed in
    let there' : All (IsThere c s') ds =
      All-map (IsThere c s) (IsThere c s') (λ d. IsThere-within c s s' d wider) ds there in
    let (w, g, sent, bytes) = copy_nothing c src ds s' no_transfer hex there' in
    let (t, h, wide, again) = copy_bound c reference src s' s' w m hex g addressed' in
    (
      s',
      u,
      ap (λ r. copy_manifest c reference src r dst) found ∙ f,
      there',
      addressed',
      (t, w, ap (λ r. copy_manifest c reference src r s') found ∙ h, sent, bytes),
    )
