-- ===== src/Container/Idmap.antt =====
-- idmap.py: the mappings of user and group ids, and the choice among them. The ids of the process,
-- the helpers and the grants of /etc/subuid and /etc/subgid are given, a grant as the first id and
-- the count of the line that is found. `USER` is given as its two numbers.
pub mod Choosing
use container_platform.Prelude.{
  ℕ, ◌+◌, ◌-◌, min, Bool, true, false, ◌&&◌, ◌||◌, Option, none, some, List, [], ◌∷◌, length, ltb,
  leb, ◌==◌, if◌then◌else◌,
}

pub record IdRange : Type 0 where
  pub inside : ℕ
  pub outside : ℕ
  pub count : ℕ

pub data Strategy : Type 0 where
  root single subid : Strategy

pub record IdMapping : Type 0 where
  pub uids : List IdRange
  pub gids : List IdRange
  pub strategy : Strategy

-- What the mapping depends on: the ids of the process, both helpers, and the two grants.
pub record Host : Type 0 where
  pub uid : ℕ
  pub gid : ℕ
  pub has_helper : Bool
  pub subuid : Option (ℕ × ℕ)
  pub subgid : Option (ℕ × ℕ)

unfoldable pub needs_helper : IdMapping → Bool
needs_helper m = ltb 1 (length m.uids) || ltb 1 (length m.gids)

unfoldable pub maps_in : ℕ → List IdRange → Bool
maps_in uid [] = false
maps_in uid (r ∷ rs) = leb r.inside uid && ltb uid (r.inside + r.count) || maps_in uid rs

unfoldable pub maps : ℕ → IdMapping → Bool
unfolding maps_in
maps uid m = maps_in uid m.uids

abbrev pub line : ℕ → ℕ → ℕ → IdRange
line inside outside count = record { inside = inside; outside = outside; count = count }

unfoldable pub root_mapping : Host → IdMapping
root_mapping h = record {
  uids = line 0 h.uid 1 ∷ [];
  gids = line 0 h.gid 1 ∷ [];
  strategy = Strategy.root;
}

unfoldable pub single_mapping : ℕ → ℕ → Host → IdMapping
single_mapping uid gid h = record {
  uids = line uid h.uid 1 ∷ [];
  gids = line gid h.gid 1 ∷ [];
  strategy = Strategy.single;
}

-- The number of ids in a mapping from the grants.
unfoldable pub granted : ℕ → ℕ × ℕ → ℕ × ℕ → ℕ
granted size u g = min (min size u.1) g.1

unfoldable pub subid_mapping : ℕ → ℕ × ℕ → ℕ × ℕ → Host → IdMapping
unfolding granted
subid_mapping size u g h = record {
  uids = line 0 h.uid 1 ∷ line 1 u.0 (granted size u g - 1) ∷ [];
  gids = line 0 h.gid 1 ∷ line 1 g.0 (granted size u g - 1) ∷ [];
  strategy = Strategy.subid;
}

-- The grants, if the helper is allowed and both are there.
unfoldable pub usable_grants : Bool → Option (ℕ × ℕ) → Option (ℕ × ℕ) → Option ((ℕ × ℕ) × (ℕ × ℕ))
usable_grants true (some u) (some g) = some (u, g)
usable_grants _ _ _ = none

unfoldable pub map_with : ℕ → ℕ → Option ((ℕ × ℕ) × (ℕ × ℕ)) → Host → IdMapping
unfolding subid_mapping single_mapping
map_with uid gid (some (u, g)) h = subid_mapping 65536 u g h
map_with uid gid none h = single_mapping uid gid h

unfoldable pub plan_for_user : ℕ → ℕ → Bool → Host → IdMapping
unfolding root_mapping map_with usable_grants
plan_for_user uid gid allow_helper h =
    if uid == 0
    then root_mapping h
    else map_with uid gid (usable_grants (allow_helper && h.has_helper) h.subuid h.subgid) h
