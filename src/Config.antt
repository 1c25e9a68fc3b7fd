-- ===== src/Config.antt =====
-- config.rs: the configuration as it is read from the TOML file, its check, and the deserialisers
-- of its fields. Built with the default features, so with `pam`.
pub mod Enums
pub mod Check
pub mod Parse
pub mod Routes
pub mod Ids
mod Tests
use webdav_server_rs.Prelude.{
  ℕ, zero, suc, ◌+◌, Bool, true, false, not, ◌&&◌, ◌||◌, Option, none, some, List, [], ◌∷◌, Str,
  str_eq, ◌==◌, bytes, if◌then◌else◌, is_some, is_none, starts_with, drop, Result, ok, err,
}
use webdav_server_rs.Config.Enums.{
  Auth, AuthType, AcctType, Handler, CaseInsensitive, OnNotfound, pam,
}

-- A socket address: the bytes of the IP address (4 or 16 of them), and the port.
pub record SocketAddr : Type 0 where
  pub ip : List ℕ
  pub port : ℕ

pub data OneOrManyAddr : Type 0 where
  one : SocketAddr → OneOrManyAddr
  many : List SocketAddr → OneOrManyAddr

-- `OneOrManyAddr::is_empty`
unfoldable pub is_empty : OneOrManyAddr → Bool
is_empty (one _) = false
is_empty (many []) = true
is_empty (many (_ ∷ _)) = false

-- `OneOrManyAddr::to_socket_addrs`
unfoldable pub to_socket_addrs : OneOrManyAddr → List SocketAddr
to_socket_addrs (many v) = v
to_socket_addrs (one s) = s ∷ []

pub record Server : Type 0 where
  pub listen : OneOrManyAddr
  pub tls_listen : OneOrManyAddr
  pub tls_key : Option Str
  pub tls_cert : Option Str
  pub uid : Option ℕ
  pub gid : Option ℕ
  pub identification : Option Str

pub record Accounts : Type 0 where
  pub auth_type : Option AuthType
  pub acct_type : Option AcctType
  pub realm : Option Str

pub record Pam : Type 0 where
  pub service : Str
  pub cache_timeout : Option ℕ
  pub threads : Option ℕ

pub record HtPasswd : Type 0 where
  pub htpasswd : Str

pub record Unix : Type 0 where
  pub cache_timeout : Option ℕ
  pub min_uid : Option ℕ
  pub aux_groups : Bool

-- `M` stands for `DavMethodSet`, a type of the crate webdav-handler.
pub record Location (M : Type 0) : Type 0 where
  pub route : List Str
  pub methods : Option M
  pub auth : Option Auth
  pub accounts : Accounts
  pub handler : Handler
  pub setuid : Bool
  pub directory : Str
  pub hide_symlinks : Option Bool
  pub indexfile : Option Str
  pub autoindex : Bool
  pub case_insensitive : Option CaseInsensitive
  pub on_notfound : Option OnNotfound

-- The field `router`, which is not read from the file, stands beside the configuration.
pub record Config (M : Type 0) : Type 0 where
  pub server : Server
  pub accounts : Accounts
  pub pam : Pam
  pub htpasswd : List (Str × HtPasswd)
  pub unix : Unix
  pub location : List (Location M)

-- The messages with which `check` exits; the number is that of the location.
pub data CheckError : Type 0 where
  missing_pam no_listen no_tls_cert no_tls_key no_server_ids : CheckError
  no_uid_switching no_acct_type : ℕ → CheckError

module _ {M : Type 0} (switching : Bool) where
  -- The loop of `check` over the locations. `switching` is `suid::has_thread_switch_ugid()`.
  unfoldable pub check_locations : Config M → ℕ → List (Location M) → Result (Unit {0}) CheckError
  check_locations config idx [] = ok tt
  check_locations config idx (location ∷ rest) =
      let next = check_locations config (idx + 1) rest in
      if location.setuid
      then (if not switching
          then err (no_uid_switching idx)
          else if is_none config.server.uid || is_none config.server.gid
          then err no_server_ids
          else if is_none config.accounts.acct_type && is_none location.accounts.acct_type
          then err (no_acct_type idx)
          else next)
      else next

  -- `check`, where `err` is a message and `exit(1)`.
  unfoldable pub check : Config M → Result (Unit {0}) CheckError
  unfolding is_empty check_locations
  check config =
      let tls = not (is_empty config.server.tls_listen) in
      if elim config.accounts.auth_type [ some pam ↦ config.pam.service == [] | _ ↦ false ]
      then err missing_pam
      else if is_empty config.server.listen && is_empty config.server.tls_listen
      then err no_listen
      else if tls && is_none config.server.tls_cert
      then err no_tls_cert
      else if tls && is_none config.server.tls_key
      then err no_tls_key
      else check_locations config 0 config.location

-- `deserialize_authtype`, on the string that it is given.
unfoldable pub deserialize_authtype : Str → Result (Option AuthType) Str
deserialize_authtype s =
    if starts_with s (bytes "htpasswd.")
    then ok (some (AuthType.htpasswd (drop 9 s)))
    else if s == bytes "pam"
    then ok (some pam)
    else if s == []
    then ok none
    else err (bytes "unknown auth-type")

-- `deserialize_enum` and `deserialize_opt_enum`, over the parser of the enum.
unfoldable pub deserialize_enum : {E : Type 0} → (Str → Option E) → Str → Result E Str
deserialize_enum parse s = elim (parse s) [ some e ↦ ok e | none ↦ err s ]

unfoldable pub deserialize_opt_enum : {E : Type 0} → (Str → Option E) → Str → Result (Option E) Str
deserialize_opt_enum parse s = elim (parse s) [ some e ↦ ok (some e) | none ↦ err s ]

-- `deserialize_methodset`, over `DavMethodSet::from_vec`.
unfoldable pub deserialize_methodset :
    {M : Type 0} → (List Str → Option M) → List Str → Result (Option M) Str
deserialize_methodset from_vec m = elim (from_vec m) [
  | some v ↦ ok (some v)
  | none ↦ err (bytes "invalid method")
]
