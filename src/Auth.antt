-- ===== src/Auth.antt =====
-- auth.rs: the authentication of a request, with PAM or with a htpasswd file.
pub mod Htpasswd
pub mod Trust
mod Tests
use webdav_server_rs.Prelude.{
  nat_eq, str_eq, ℕ, Bool, true, false, not, ◌&&◌, Option, none, some, or, is_some, List, [], ◌∷◌,
  map, filter, Str, bytes, starts_with, split, trim, ◌==◌, if◌then◌else◌, Result, ok, err, Outcome,
  returned, panicked, ◌>>=◌,
}
use mathlib.Core.List.{head?}
use mathlib.Core.Option
use webdav_server_rs.Cached.{Login, pam_auth}
use webdav_server_rs.Config.{SocketAddr, Location, Config, HtPasswd}
use webdav_server_rs.Config.Enums.{AuthType, pam, htpasswd}
use webdav_server_rs.Http.{
  StatusCode, unauthorized, HttpRequest, Environment, World, read_clock, is_loopback,
}

-- `HashMap::get` on the sections of the file.
unfoldable pub find_section : Str → List (Str × HtPasswd) → Option HtPasswd
find_section name [] = none
find_section name ((k, section) ∷ rest) = if k == name then some section else find_section name rest

-- The lines of a htpasswd file that are looked at.
unfoldable pub lines_of : Str → List Str
lines_of contents =
    filter (λ s. not (starts_with s (bytes "#")) && not (s == [])) (map trim (split b'\n' contents))

module _ (env : Environment) where
  -- The test on one line, by its fields.
  unfoldable pub check_fields : (user pass : Str) → List Str → Bool
  check_fields user pass (htuser ∷ htpass ∷ _) = htuser == user && env.verify pass htpass
  check_fields user pass _ = false

  -- The loop over the lines.
  unfoldable pub check_lines : (user pass : Str) → List Str → Result Str StatusCode
  unfolding check_fields
  check_lines user pass [] = err unauthorized
  check_lines user pass (line ∷ rest) =
      if check_fields user pass (split b':' line) then ok user else check_lines user pass rest

  -- The client's address for PAM: that of the connection, or, from this host, the first one in
  -- the header.
  unfoldable pub client_ip : HttpRequest → SocketAddr → Option Str
  unfolding is_loopback split trim
  client_ip req remote =
      if is_loopback remote.ip
      then Option.map trim (
          Option.bind (Option.bind (env.header req.headers (bytes "x-forwarded-for")) env.to_str)
            (λ s. head? (split b',' s)))
      else some (env.ip_to_string remote.ip)

  module _ {S : Type 0} where
    -- `auth_htpasswd`; the file is read at a time.
    unfoldable pub auth_htpasswd : Config S → ℕ → (user pass section : Str) → Result Str StatusCode
    unfolding find_section lines_of check_lines
    auth_htpasswd config now user pass section = elim (find_section section config.htpasswd) [
      | none ↦ err unauthorized
      | some found ↦ elim (env.read_to_string now found.htpasswd) [
        | none ↦ err unauthorized
        | some contents ↦ check_lines user pass (lines_of contents)
      ]
    ]

    -- `auth_pam`
    unfoldable pub auth_pam :
        Config S
        → HttpRequest
        → (user pass : Str) → SocketAddr
        → World
        → Outcome (World × Result Str StatusCode)
    unfolding client_ip read_clock pam_auth
    auth_pam config req user pass remote w =
        let (times, w') = read_clock env w in
        let login : Login = record {
          service = config.pam.service;
          user = user;
          pass = pass;
          remip = client_ip req remote;
        } in
        do
          (statics, r) ← pam_auth env.pam times login w'.statics
          returned (
            record w' { statics = statics },
            elim r [ ok _ ↦ ok user | err _ ↦ err unauthorized ],
          )

    -- `auth`
    unfoldable pub auth :
        Config S
        → HttpRequest
        → Location S
        → SocketAddr
        → World
        → Outcome (World × Result Str StatusCode)
    unfolding auth_htpasswd auth_pam
    auth config req location remote w = elim (env.basic req.headers) [
      | none ↦ returned (w, err unauthorized)
      | some (user, pass) ↦ elim (or location.accounts.auth_type config.accounts.auth_type) [
        | none ↦ returned (w, err unauthorized)
        | some pam ↦ auth_pam config req user pass remote w
        | some (htpasswd section) ↦
            let (times, w') = read_clock env w in
            returned (w', auth_htpasswd config times.answer user pass section)
      ]
    ]
