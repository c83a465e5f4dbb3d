-- ===== src/Container/Examples.antt =====
-- A message with two attributes, and the mapping for a user.
use container_platform.Prelude.{ℕ, none, true, false, ◌≡◌, refl, some, [], ◌∷◌, arith}
use container_platform.Container.Netlink.{
  Bytes, align, attribute, Attributes, set_attribute, parse_from, parse_attributes,
}
use container_platform.Container.Idmap.{
  Host, needs_helper, maps_in, maps, root_mapping, single_mapping, granted, subid_mapping,
  usable_grants, map_with, plan_for_user,
}
use container_platform.Container.Idmap.Choosing.{maps-plan_for_user}
use container_platform.Container.Netlink.Attributes.{
  attributes, set_all, get_attribute, last_of, Fits, parse_attributes-attributes,
}

-- IFLA_IFNAME = "v0", with the zero at its end, and IFLA_MTU = 1500.
abbrev link : Attributes
link = (3, 118 ∷ 48 ∷ 0 ∷ []) ∷ (4, 220 ∷ 5 ∷ 0 ∷ 0 ∷ []) ∷ []

program : Unit {0}
unfolding align attribute set_attribute parse_from parse_attributes attributes set_all
program = tt

-- The name is padded by one byte, which its length does not count.
written :
    attributes link ≡ some (7 ∷ 0 ∷ 3 ∷ 0 ∷ 118 ∷ 48 ∷ 0 ∷ 0 ∷ 8 ∷ 0 ∷ 4 ∷ 0 ∷ 220 ∷ 5 ∷ 0 ∷ 0 ∷ [])
unfolding program
written = refl

link_fits : Fits link
link_fits = ((omega arith, omega arith), ((omega arith, omega arith), tt))

parse_attributes-attributes_example :
    (buffer : Bytes) × (attributes link ≡ some buffer)
    × ((kind : ℕ) → get_attribute kind (parse_attributes buffer) ≡ last_of kind link none)
parse_attributes-attributes_example = parse_attributes-attributes link link_fits

abbrev host : Host
host = record {
  uid = 1000;
  gid = 1000;
  has_helper = true;
  subuid = some (100000, 65536);
  subgid = some (100000, 65536);
}

idmap_program : Unit {0}
unfolding needs_helper maps_in maps root_mapping single_mapping granted subid_mapping usable_grants
    map_with plan_for_user
idmap_program = tt

-- A user above the grants gets a mapping in which it is not.
unmapped_user : maps 70000 (plan_for_user 70000 70000 true host) ≡ false
unfolding idmap_program
unmapped_user = refl

maps-plan_for_user_example :
    (maps 10001 (plan_for_user 10001 10001 true host) ≡ true)
    × (needs_helper (plan_for_user 10001 10001 true host) ≡ true)
unfolding idmap_program
maps-plan_for_user_example = maps-plan_for_user 10001 10001 true host
