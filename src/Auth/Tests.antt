-- ===== src/Auth/Tests.antt =====
-- Logins with a htpasswd file, and the theorem applied to them.
use webdav_server_rs.Prelude.{◌⊎◌, returned, some, or, bytes, nat_eq, str_eq}
use webdav_server_rs.Cache
use webdav_server_rs.Cached.{pam_auth, pam_auth_in, ask_pam, force_pamcache}
use webdav_server_rs.Config.Enums.{pam, htpasswd}
use webdav_server_rs.Http.{World, read_clock}
use webdav_server_rs.Auth.{auth, auth_pam, client_ip}
use webdav_server_rs.Auth.Trust.{LetIn, auth_sound}
use webdav_server_rs.Sample.{home, client, request, world}
use webdav_server_rs.Prelude.{
  nat_eq, str_eq, ◌≡◌, ◌↔◌, refl, some, Str, bytes, split, trim, ok, err,
}
use webdav_server_rs.Auth.{find_section, auth_htpasswd}
use webdav_server_rs.Auth.Htpasswd.{HasEntry, auth_htpasswd_iff}
use webdav_server_rs.Config.{HtPasswd}
use webdav_server_rs.Http.{unauthorized}
use webdav_server_rs.Sample.{mike, environment, config}

program : Unit {0}
unfolding auth_htpasswd split trim auth auth_pam client_ip pam_auth pam_auth_in ask_pam
    force_pamcache Cache.insert Cache.get Cache.new Cache.with_maxage
program = tt

accepts_mike : auth_htpasswd environment config 5 mike (bytes "secret") (bytes "main") ≡ ok mike
unfolding program
accepts_mike = refl

refuses_comment :
    auth_htpasswd environment config 5 (bytes "# users") (bytes "secret") (bytes "main")
    ≡ err unauthorized
unfolding program
refuses_comment = refl

auth_htpasswd_iff_example :
    (auth_htpasswd environment config 5 mike (bytes "secret") (bytes "main") ≡ ok mike)
    ↔ (mike ≡ mike)
      × ((sec : HtPasswd) × (contents : Str) × (find_section (bytes "main") config.htpasswd
            ≡ some sec)
          × (environment.read_to_string 5 sec.htpasswd ≡ some contents)
          × HasEntry environment mike (bytes "secret") contents)
auth_htpasswd_iff_example =
    auth_htpasswd_iff environment mike (bytes "secret") config 5 (bytes "main") mike

accepted : (w : World) × (auth environment config request home client world ≡ returned (w, ok mike))
unfolding program
accepted = (_, refl)

auth_sound_example :
    (pass : Str) × (environment.basic request.headers ≡ some (mike, pass))
    × (((or home.accounts.auth_type config.accounts.auth_type ≡ some pam)
          × LetIn environment config request client world accepted.0 mike pass)
        ⊎ ((section : Str) × (or home.accounts.auth_type config.accounts.auth_type
              ≡ some (htpasswd section))
            × (auth_htpasswd environment config
                  (read_clock environment world).0.answer
                  mike
                  pass
                  section
                ≡ ok mike)))
auth_sound_example =
    auth_sound environment config request client home world accepted.0 mike accepted.1
