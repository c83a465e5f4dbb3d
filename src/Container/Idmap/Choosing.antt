-- ===== src/Container/Idmap/Choosing.antt =====
-- idmap.py: which ids the chosen mapping maps.
use container_platform.Prelude.{
  ℕ, ◌≡◌, refl, ◌∙◌, inl, inr, Bool, true, false, not, ◌&&◌, Option, none, some, arith, ltb, ◌==◌,
  if◌then◌else◌, Bool-cases,
}
use container_platform.Container.Idmap.{
  Host, needs_helper, maps_in, maps, root_mapping, single_mapping, granted, subid_mapping,
  usable_grants, map_with, plan_for_user,
}

-- The user is mapped, but for a mapping from grants that are too small.
abbrev pub is_mapped : ℕ → Option ((ℕ × ℕ) × (ℕ × ℕ)) → Bool
is_mapped uid none = true
is_mapped uid (some (u, g)) = ltb uid 65536 && ltb uid u.1 && ltb uid g.1

abbrev pub is_granted : Option ((ℕ × ℕ) × (ℕ × ℕ)) → Bool
is_granted none = false
is_granted (some p) = true

map_with_lem :
    (uid gid : ℕ) (o : Option ((ℕ × ℕ) × (ℕ × ℕ))) (h : Host)
    → (uid == 0) ≡ false
    → (maps uid (map_with uid gid o h) ≡ is_mapped uid o)
      × (needs_helper (map_with uid gid o h) ≡ is_granted o)
unfolding maps maps_in map_with single_mapping subid_mapping needs_helper granted
map_with_lem uid gid none h other = (ground arith, refl)
map_with_lem uid gid (some (u, g)) h other = (ground (arith, other), refl)

abbrev pub is_there : Option (ℕ × ℕ) → Bool
is_there none = false
is_there (some g) = true

-- The number is below the count of the grant.
abbrev pub is_within : ℕ → Option (ℕ × ℕ) → Bool
is_within uid none = false
is_within uid (some g) = ltb uid g.1

-- The user is not root, the helper is allowed and there, and both grants are found.
abbrev pub takes_grants : ℕ → Bool → Host → Bool
takes_grants uid allow h =
    not (uid == 0) && (allow && h.has_helper && (is_there h.subuid && is_there h.subgid))

grants_lem :
    (uid : ℕ) (allowed : Bool) (u g : Option (ℕ × ℕ))
    → (is_granted (usable_grants allowed u g) ≡ (allowed && (is_there u && is_there g)))
      × (is_mapped uid (usable_grants allowed u g) ≡ (
          if allowed && (is_there u && is_there g)
          then ltb uid 65536 && (is_within uid u && is_within uid g)
          else true))
unfolding usable_grants
grants_lem uid true none g = (refl, refl)
grants_lem uid true (some u) none = (refl, refl)
grants_lem uid true (some u) (some g) = (refl, ground arith)
grants_lem uid false u g = (refl, refl)

-- The mapping that is chosen maps the user, except where it comes from the grants and the number of
-- the user is not below 65536 and below the counts of both. It needs the helper just where it comes
-- from the grants, which is where the user is not root, the helper is allowed and there, and both
-- grants are found.
pub maps-plan_for_user :
    (uid gid : ℕ) (allow : Bool) (h : Host)
    → (maps uid (plan_for_user uid gid allow h) ≡ (
        if takes_grants uid allow h
        then ltb uid 65536 && (is_within uid h.subuid && is_within uid h.subgid)
        else true))
      × (needs_helper (plan_for_user uid gid allow h) ≡ takes_grants uid allow h)
unfolding plan_for_user needs_helper
maps-plan_for_user uid gid allow h = elim (Bool-cases (uid == 0)) [
  | inl zero_uid ↦ rw zero_uid (unfold maps maps_in root_mapping in ground (arith, zero_uid), refl)
  | inr other ↦
      let o = usable_grants (allow && h.has_helper) h.subuid h.subgid in
      let (mapped, helped) = map_with_lem uid gid o h other in
      let (granted, within) = grants_lem uid (allow && h.has_helper) h.subuid h.subgid in
      rw other (mapped ∙ within, helped ∙ granted)
]
