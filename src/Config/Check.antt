-- ===== src/Config/Check.antt =====
-- When `check` lets a configuration pass.
use webdav_server_rs.Prelude.{
  ℕ, ◌+◌, ◌≡◌, ◌≢◌, ◌↔◌, ◌⊎◌, refl, true, none, some, List, [], ◌∷◌, All, str_eq, eq_iff, ok, arith,
}
use webdav_server_rs.Config.Enums.{pam}
use webdav_server_rs.Config.{
  OneOrManyAddr, one, many, is_empty, to_socket_addrs, Location, Config, check_locations, check,
}

module _ {M : Type 0} (config : Config M) where
  -- A location that switches to its users has ids to start from, and accounts to look up.
  abbrev pub MaySwitch : Location M → Type 0
  MaySwitch l =
      l.setuid ≡ true
      → (config.server.uid ≢ none)
        × (config.server.gid ≢ none)
        × ((config.accounts.acct_type ≢ none) ⊎ (l.accounts.acct_type ≢ none))

  -- What a server needs in order to start.
  pub record IsUsable : Type 0 where
    pub pam_service : config.accounts.auth_type ≡ some pam → config.pam.service ≢ []
    pub listens :
        (to_socket_addrs config.server.listen ≢ [])
        ⊎ (to_socket_addrs config.server.tls_listen ≢ [])
    pub tls :
        to_socket_addrs config.server.tls_listen ≢ []
        → (config.server.tls_cert ≢ none) × (config.server.tls_key ≢ none)
    pub locations : All MaySwitch config.location

is_empty_iff : (a : OneOrManyAddr) → (is_empty a ≡ true) ↔ (to_socket_addrs a ≡ [])
unfolding is_empty to_socket_addrs
is_empty_iff (one s) = ground arith
is_empty_iff (many []) = ground arith
is_empty_iff (many (_ ∷ _)) = ground arith

check_locations_sound :
    {M : Type 0} (config : Config M) (idx : ℕ) (ls : List (Location M))
    → check_locations true config idx ls ≡ ok tt
    → All (MaySwitch config) ls
unfolding check_locations
check_locations_sound config idx [] e = tt
check_locations_sound config idx (l ∷ ls) e =
    ground (arith, check_locations_sound config (idx + 1) ls)

check_locations_complete :
    {M : Type 0} (config : Config M) (idx : ℕ) (ls : List (Location M))
    → All (MaySwitch config) ls
    → check_locations true config idx ls ≡ ok tt
unfolding check_locations
check_locations_complete config idx [] a = refl
check_locations_complete config idx (l ∷ ls) a =
    ground (arith, check_locations_complete config (idx + 1) ls)

module _ {M : Type 0} (config : Config M) where
  check_sound : check true config ≡ ok tt → IsUsable config
  unfolding check
  check_sound e = record {
    pam_service = λ p. ground (arith, eq_iff config.pam.service []);
    listens =
        ground (arith, is_empty_iff config.server.listen, is_empty_iff config.server.tls_listen);
    tls = λ p. ground (arith, is_empty_iff config.server.tls_listen);
    locations = check_locations_sound config 0 config.location (ground arith);
  }

  check_complete : IsUsable config → check true config ≡ ok tt
  unfolding check
  check_complete u = ground (
    arith,
    eq_iff config.pam.service [],
    is_empty_iff config.server.listen,
    is_empty_iff config.server.tls_listen,
    check_locations_complete config 0 config.location,
  )

  -- On Linux `check` lets a configuration pass exactly when it is usable.
  pub check_iff : (check true config ≡ ok tt) ↔ IsUsable config
  check_iff = (check_sound, check_complete)
