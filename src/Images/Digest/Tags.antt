-- ===== src/Images/Digest/Tags.antt =====
-- manifest.py: a tag is bound to one descriptor, and binding it leaves the other tags alone.
use container_platform.Prelude.Dict.{lookup-insert_own}
use container_platform.Prelude.{
  String, ◌≡◌, refl, ap, ◌∙◌, sym, inl, inr, true, false, Option, none, some, List, [], ◌∷◌, str_eq,
  if◌then◌else◌, Bool-cases, eq_iff,
}
use container_platform.Images.Digest.{
  Descriptor, annotation_ref, is_named, has_ref, find, tagged, upsert,
}

has_ref-tagged :
    (name reference : String) (d : Descriptor)
    → has_ref name (tagged reference d) ≡ str_eq reference name
unfolding has_ref tagged is_named
has_ref-tagged name reference d =
    ap (is_named name) (lookup-insert_own annotation_ref reference d.annotations)

is_named-other :
    (name reference : String) (o : Option String)
    → is_named reference o ≡ true
    → str_eq reference name ≡ false
    → is_named name o ≡ false
unfolding is_named
is_named-other name reference none e other = refl
is_named-other name reference (some x) e other =
    ap (λ y. str_eq y name) ((eq_iff x reference).0 e) ∙ other

-- `find` after `upsert` gives the tagged descriptor for the reference, and for any other one what it
-- gave before.
pub find-upsert :
    (name reference : String) (d : Descriptor) (ds : List Descriptor)
    → find name (upsert reference d ds)
      ≡ (if str_eq reference name then some (tagged reference d) else find name ds)
unfolding find upsert
find-upsert name reference d [] = rw (has_ref-tagged name reference d) refl
find-upsert name reference d (x ∷ ds) = elim (Bool-cases (has_ref reference x)) [
  | inl mine ↦ elim (Bool-cases (str_eq reference name)) [
    | inl same ↦ rw (mine, has_ref-tagged name reference d, same) refl
    | inr other ↦
        let skipped : has_ref name x ≡ false =
          unfold has_ref in is_named-other name reference _ mine other in
        rw (mine, has_ref-tagged name reference d, other) (rw skipped refl)
  ]
  | inr not_mine ↦ elim (Bool-cases (str_eq reference name)) [
    | inl same ↦
        let skipped : has_ref name x ≡ false =
          ap (λ k. has_ref k x) (sym ((eq_iff reference name).0 same)) ∙ not_mine in
        rw (not_mine, skipped) (find-upsert name reference d ds)
    | inr other ↦ elim (Bool-cases (has_ref name x)) [
      | inl found ↦ rw (not_mine, other, found) refl
      | inr lost ↦ rw (not_mine, lost) (find-upsert name reference d ds)
    ]
  ]
]
