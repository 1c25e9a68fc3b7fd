-- ===== src/Config/Ids.antt =====
-- config.rs: `deserialize_user` and `deserialize_group`, the default of the addresses.
use webdav_server_rs.Prelude.{
  ℕ, ◌≡◌, ◌<◌, ◌^◌, refl, Option, none, some, [], Str, parse_u32, parse_u32-to_string, to_string,
  Result, ok, err,
}
use webdav_server_rs.Config.{OneOrManyAddr, many}

unfoldable pub deserialize_user : Str → Result (Option ℕ) Str
unfolding parse_u32
deserialize_user s = elim (parse_u32 s) [ some v ↦ ok (some v) | none ↦ err s ]

unfoldable pub deserialize_group : Str → Result (Option ℕ) Str
unfolding parse_u32
deserialize_group s = elim (parse_u32 s) [ some v ↦ ok (some v) | none ↦ err s ]

-- `OneOrManyAddr::default`
unfoldable pub default_addr : OneOrManyAddr
default_addr = many []

-- An id that is written in decimal digits is read back, as a user and as a group.
pub deserialize_ids-to_string :
    (n : ℕ)
    → n < 2 ^ 32
    → (deserialize_user (to_string n) ≡ ok (some n))
      × (deserialize_group (to_string n) ≡ ok (some n))
unfolding deserialize_user deserialize_group
deserialize_ids-to_string n h = (
  rw (deserialize_user, parse_u32-to_string n h) refl,
  rw (deserialize_group, parse_u32-to_string n h) refl,
)
