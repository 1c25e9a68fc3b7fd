-- ===== src/Server/Trusted/Lookups.antt =====
-- Logins and account lookups keep the entries of the caches genuine.
use webdav_server_rs.Prelude.{
  nat_eq, str_eq, ◌≡◌, ap, subst, inl, inr, Option-cases, Option, or, Str, Result, Outcome,
  returned, panicked, >>=-eq-returned,
}
use webdav_server_rs.Config.{SocketAddr, Location, Config}
use webdav_server_rs.Config.Enums.{pam, htpasswd, AcctType}
use webdav_server_rs.Unixuser.{User}
use webdav_server_rs.Cached.{Login, pam_auth, unixuser}
use webdav_server_rs.Http.{StatusCode, HttpRequest, Environment, World, read_clock}
use webdav_server_rs.Auth.{client_ip, auth_pam, auth}
use webdav_server_rs.Dav.{DavCrate}
use webdav_server_rs.Server.{acct}
use webdav_server_rs.Server.Trusted.{
  IsMonotone, IsTrusted, read_clock-IsTrusted, pam_auth-IsTrusted, unixuser-IsTrusted,
}

pub first_of :
    {A B : Type 0} {a a' : A} {b b' : B}
    → ◌≡◌ {A = Outcome (A × B)} (returned (a, b)) (returned (a', b'))
    → a ≡ a'
first_of {a = a} e = ap (λ o. elim o [ returned (x, _) ↦ x | panicked ↦ a ]) e

module _ (env : Environment) (dav : DavCrate) (config : Config dav.MethodSet)
    (mono : IsMonotone env config.unix.aux_groups) where
  -- Both caches of a world are genuine.
  abbrev pub Trusted : World → Type 0
  Trusted w = IsTrusted env config.unix.aux_groups w

  pub auth-Trusted :
      (req : HttpRequest) (location : Location dav.MethodSet) (remote : SocketAddr) (w w' : World)
      (r : Result Str StatusCode)
      → Trusted w
      → auth env config req location remote w ≡ returned (w', r)
      → Trusted w'
  unfolding auth auth_pam
  auth-Trusted req location remote w w' r trusted e = elim (Option-cases (env.basic req.headers)) [
    | inl missing ↦ subst Trusted (first_of (rw (auth, missing) at e)) trusted
    | inr ((user, pass), given) ↦
        elim (Option-cases (or location.accounts.auth_type config.accounts.auth_type)) [
          | inl unset ↦ subst Trusted (first_of (rw (auth, given, unset) at e)) trusted
          | inr (htpasswd section, set) ↦
              subst Trusted (first_of (rw (auth, given, set) at e))
                (read_clock-IsTrusted env config.unix.aux_groups mono w trusted)
          | inr (pam, set) ↦
              let login : Login = record {
                service = config.pam.service;
                user = user;
                pass = pass;
                remip = client_ip env req remote;
              } in
              let ((statics, answered), asked, e₁) =
                >>=-eq-returned
                  (pam_auth env.pam (read_clock env w).0 login (read_clock env w).1.statics) _
                  (rw (auth, given, set, auth_pam) at e) in
              subst Trusted (first_of e₁)
                (pam_auth-IsTrusted env config.unix.aux_groups login w statics mono trusted asked)
        ]
  ]

  module _ (remote : SocketAddr) where
    pub acct-Trusted :
        (location : Location dav.MethodSet) (auth_user user_param : Option Str) (w w' : World)
        (r : Result (Option User) StatusCode)
        → Trusted w
        → acct env dav config remote location auth_user user_param w ≡ returned (w', r)
        → Trusted w'
    unfolding acct
    acct-Trusted location auth_user user_param w w' r trusted e =
        elim (Option-cases (or auth_user user_param)) [
          | inl nobody ↦ subst Trusted (first_of (rw (acct, nobody) at e)) trusted
          | inr (user, named) ↦
              elim (Option-cases (or location.accounts.acct_type config.accounts.acct_type)) [
                | inl unset ↦ subst Trusted (first_of (rw (acct, named, unset) at e)) trusted
                | inr (AcctType.unix, set) ↦
                    let ((statics, found), asked, e₁) =
                      >>=-eq-returned
                        (unixuser env.db (read_clock env w).0 user config.unix.aux_groups
                          (read_clock env w).1.statics)
                        _ (rw (acct, named, set) at e) in
                    subst Trusted (first_of e₁) (
                      unixuser-IsTrusted env config.unix.aux_groups user w statics mono trusted
                        asked)
              ]
        ]
