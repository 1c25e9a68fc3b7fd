-- ===== src/Auth/Trust.antt =====
-- What a login that `auth` accepts rests on.
use webdav_server_rs.Prelude.{
  nat_eq, str_eq, ℕ, ◌≡◌, ◌⊎◌, refl, sym, ap, ap₂, ◌∙◌, subst, inl, inr, some, or, Option-cases,
  Str, Result, ok, err, Result-cases, Outcome, returned, panicked, >>=-eq-returned, arith,
}
use webdav_server_rs.Cache
use webdav_server_rs.Cache.{Intern}
use webdav_server_rs.Cached.{Login, force_pamcache, pam_auth}
use webdav_server_rs.Cached.Logins.{Accepted, pam_auth_in-cases}
use webdav_server_rs.Cached.Timeout.{pam_auth-inversion}
use webdav_server_rs.Config.{SocketAddr, Location, Config}
use webdav_server_rs.Config.Enums.{AuthType, pam, htpasswd}
use webdav_server_rs.Http.{StatusCode, unauthorized, HttpRequest, Environment, World, read_clock}
use webdav_server_rs.Auth.{client_ip, auth_pam, auth_htpasswd, auth}
use webdav_server_rs.Auth.Htpasswd.{auth_htpasswd_iff}

AuthType-cases : (t : AuthType) → (t ≡ pam) ⊎ ((section : Str) × (t ≡ htpasswd section))
AuthType-cases pam = inl refl
AuthType-cases (htpasswd section) = inr (section, refl)

module _ (env : Environment) {S : Type 0} (config : Config S) (req : HttpRequest)
    (remote : SocketAddr) where
  -- The login that PAM is asked for.
  abbrev pub login_of : (user pass : Str) → Login
  login_of user pass = record {
    service = config.pam.service;
    user = user;
    pass = pass;
    remip = client_ip env req remote;
  }

  -- A call of `pam_auth` takes the world from one state to another and lets the login in: PAM
  -- accepts it, or the cache of the first state has its user under its hash.
  pub record LetIn (w w' : World) (user pass : Str) : Type 0 where
    pub ran :
        pam_auth env.pam (read_clock env w).0 (login_of user pass) w.statics
        ≡ returned (w'.statics, ok tt)
    pub accepted :
        Accepted env.pam (read_clock env w).0.answer (login_of user pass)
        ⊎ ((c : Intern ℕ Str) × (Cache.get
                (read_clock env w).0.lookup
                (env.pam.hash (login_of user pass))
                (force_pamcache w.statics)
              ≡ returned (c, some user)))

  auth_pam-LetIn :
      (user pass u : Str) (w w' : World)
      → auth_pam env config req user pass remote w ≡ returned (w', ok u)
      → (u ≡ user) × LetIn w w' user pass
  unfolding auth_pam read_clock
  auth_pam-LetIn user pass u w w' e =
      let t = (read_clock env w).0 in
      let ((statics, r), asked, e₁) =
        >>=-eq-returned (pam_auth env.pam t (login_of user pass) w.statics) _ e in
      elim (Result-cases r) [
        | inr (code, refused) ↦ absurd (ground arith)
        | inl (done, let_in) ↦
            let kept : statics ≡ w'.statics =
              ap (λ o. elim o [ returned (x, _) ↦ x.statics | panicked ↦ statics ]) e₁ in
            let ran = asked ∙ ap₂ (λ x y. returned (x, y)) kept let_in in
            let (c, inside, _) =
              pam_auth-inversion env.pam t (login_of user pass) w.statics w'.statics ran in
            (
              ground arith,
              record {
                ran = ran;
                accepted =
                    pam_auth_in-cases env.pam t (login_of user pass) (force_pamcache w.statics) c
                      inside;
              },
            )
      ]

  refused :
      {w w' : World} {u : Str}
      → ◌≡◌ {A = Outcome (World × Result Str StatusCode)}
          (returned (w, err unauthorized))
          (returned (w', ok u))
      → ⊥
  refused e = ground arith

  abbrev answer_of : Outcome (World × Result Str StatusCode) → Result Str StatusCode
  answer_of (returned (_, r)) = r
  answer_of panicked = err unauthorized

  module _ (location : Location S) where
    -- A user whom `auth` accepts is the one of the Authorization header, as the authentication type
    -- of the location says, or that of the server if the location has none: either `pam_auth` let
    -- this login in, where PAM accepts it or the cache has this user under its hash, or the htpasswd
    -- file of the configured section, as it is now, did.
    pub auth_sound :
        (w w' : World) (u : Str)
        → auth env config req location remote w ≡ returned (w', ok u)
        → (pass : Str) × (env.basic req.headers ≡ some (u, pass))
          × (((or location.accounts.auth_type config.accounts.auth_type ≡ some pam)
                × LetIn w w' u pass)
              ⊎ ((section : Str) × (or location.accounts.auth_type config.accounts.auth_type
                    ≡ some (htpasswd section))
                  × (auth_htpasswd env config (read_clock env w).0.answer u pass section ≡ ok u)))
    unfolding auth
    auth_sound w w' u e = elim (Option-cases (env.basic req.headers)) [
      | inl missing ↦ absurd (ground arith)
      | inr ((user, pass), given) ↦
          let chosen = or location.accounts.auth_type config.accounts.auth_type in
          elim (Option-cases chosen) [
            | inl unset ↦ absurd (refused (rw (auth, given, unset) at e))
            | inr (t, set) ↦ elim (AuthType-cases t) [
              | inl by_pam ↦
                  let (same, let_in) =
                    auth_pam-LetIn user pass u w w' (rw (auth, given, set, by_pam) at e) in
                  (
                    pass,
                    given ∙ ap (λ x. some (x, pass)) (sym same),
                    inl (set ∙ ap some by_pam, subst (λ x. LetIn w w' x pass) (sym same) let_in),
                  )
              | inr (section, by_file) ↦
                  let now = (read_clock env w).0.answer in
                  let ran : auth_htpasswd env config now user pass section ≡ ok u =
                    ap answer_of (rw (auth, given, set, by_file) at e) in
                  let same = ((auth_htpasswd_iff env user pass config now section u).0 ran).0 in
                  (
                    pass,
                    given ∙ ap (λ x. some (x, pass)) (sym same),
                    inr (
                      section,
                      set ∙ ap some by_file,
                      subst (λ x. auth_htpasswd env config now x pass section ≡ ok u) (sym same)
                          ran,
                    ),
                  )
            ]
          ]
    ]
