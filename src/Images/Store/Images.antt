-- ===== src/Images/Store/Images.antt =====
-- store.py: an image that is put under a tag is found under it.
use container_platform.Prelude.Dict
use container_platform.Prelude.Dict.{lookup-insert_own}
use container_platform.Prelude.{
  String, ◌≡◌, refl, ap, ◌∙◌, inl, inr, Bool, true, false, some, [], ◌∷◌, ◌++◌, Option-cases,
  eq_iff,
}
use container_platform.Images.Digest.{Bytes, Result, digest_of, find, upsert, tagged}
use container_platform.Images.Digest.Tags.{find-upsert}
use container_platform.Images.Store.{
  Manifest, ImageStore, Codec, is_some, write_blob, get_blob, then_result, check_blobs,
  manifest_descriptor, bind_after, bind_tag, put_checked, put_image, manifest_at, manifest_found,
  get_manifest, decoded, read_manifest,
}
use container_platform.Images.Store.Blobs.{IsHash, has_path, put_blob_lem, get_blob_lem}

-- No other blob of the store has the hash of the blob.
abbrev pub IsFree : Codec → Bytes → ImageStore → Type 0
IsFree c b s = (x : Bytes) → Dict.lookup (c.hash b) s.blobs ≡ some x → x ≡ b

lookup-write_blob :
    (c : Codec) (b : Bytes) (s : ImageStore)
    → IsFree c b s
    → Dict.lookup (c.hash b) (write_blob (c.hash b) b s).blobs ≡ some b
unfolding write_blob
lookup-write_blob c b s free = elim (Option-cases (Dict.lookup (c.hash b) s.blobs)) [
  | inl missing ↦
      let gone : has_path (c.hash b) s ≡ false = ap is_some missing in
      let l = lookup-insert_own (c.hash b) b s.blobs in rw gone l
  | inr (x, there) ↦
      let here : has_path (c.hash b) s ≡ true = ap is_some there in
      let l : Dict.lookup (c.hash b) s.blobs ≡ some b = there ∙ ap some (free x there) in rw here l
]

decoded_lem :
    (c : Codec) (digest : String) (m : Manifest)
    → c.decode (c.encode m) ≡ some m
    → decoded c digest (c.encode m) ≡ Result.ok m
unfolding decoded
decoded_lem c digest m reads = ap read_manifest reads

-- If the layers and the config of a manifest are in the store, its text is read back, and no other
-- blob of the store has its hash, then `put_image` succeeds, and `get_manifest` of the tag gives the
-- manifest.
pub get_manifest-put_image :
    (c : Codec) (reference : String) (is_digest : Bool) (m : Manifest) (s : ImageStore)
    → IsHash c
    → c.decode (c.encode m) ≡ some m
    → IsFree c (c.encode m) s
    → check_blobs (m.layers ++ (m.config ∷ [])) s ≡ Result.ok tt
    → ((put_image c reference m s).1 ≡ Result.ok (manifest_descriptor c m))
      × (get_manifest c reference is_digest (put_image c reference m s).0 ≡ Result.ok m)
unfolding put_image put_checked bind_tag bind_after
get_manifest-put_image c reference is_digest m s hex reads free there =
    let blob = c.encode m in
    let w = write_blob (c.hash blob) blob s in
    let t : ImageStore = record w {
      manifests = upsert reference (manifest_descriptor c m) w.manifests;
    } in
    let put : put_image c reference m s ≡ (t, Result.ok (manifest_descriptor c m)) =
      ap (λ r. put_checked c reference m r s) there
      ∙ ap (bind_after c reference m) (put_blob_lem c blob s hex) in
    let named : find reference t.manifests ≡ some (tagged reference (manifest_descriptor c m)) =
      find-upsert reference reference (manifest_descriptor c m) w.manifests
      ∙ rw ((eq_iff reference reference).1 refl) refl in
    let got : get_blob c (digest_of c.hash blob) t ≡ Result.ok blob =
      get_blob_lem c blob blob t hex refl (lookup-write_blob c blob s free) in
    let read : get_manifest c reference is_digest t ≡ Result.ok m =
      unfold get_manifest manifest_found manifest_at then_result tagged manifest_descriptor in
      ap (λ f. manifest_found c reference is_digest f t) named
      ∙ ap (λ r. then_result r (decoded c (digest_of c.hash blob))) got
      ∙ decoded_lem c (digest_of c.hash blob) m reads in
    (ap (λ r. r.1) put, ap (λ r. get_manifest c reference is_digest r.0) put ∙ read)
