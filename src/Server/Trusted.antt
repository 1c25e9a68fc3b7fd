-- ===== src/Server/Trusted.antt =====
-- The caches through whole requests: their entries come from logins that PAM accepted and from the
-- account database.
pub mod Lookups
pub mod Requests
pub mod Runs
mod Tests
use webdav_server_rs.Prelude.{
  nat_eq, str_eq, ℕ, suc, ◌*◌, ◌≡◌, ◌≤◌, refl, sym, ap, ◌∙◌, subst, Bool, Option, none, some, List,
  All, Str, Result, Outcome, returned, >>=-eq-returned, arith,
}
use webdav_server_rs.Cache
use webdav_server_rs.Cache.{Intern, nanos_per_sec}
use webdav_server_rs.Cache.History.{Reach, started}
use webdav_server_rs.Unixuser.{User}
use webdav_server_rs.Cached.{
  Login, Times, Statics, initial, set_pamcache_timeout, set_pwcache_timeout, force_pamcache,
  force_pwcache, pam_auth_in, pam_auth, unixuser_in, unixuser,
}
use webdav_server_rs.Cached.Logins.{IsAuthentic, pam_auth-IsAuthentic}
use webdav_server_rs.Cached.Accounts.{IsGenuine, unixuser-IsGenuine, unixuser-inversion}
use webdav_server_rs.Cached.Timeout.{pam_auth-inversion}
use webdav_server_rs.Http.{Environment, World, read_clock}

module _ (env : Environment) (aux_groups : Bool) where
  -- The clock does not go back.
  abbrev pub IsMonotone : Type 0
  IsMonotone = (n : ℕ) → env.clock n ≤ env.clock (suc n)

  abbrev pub LoginsBefore : ℕ → Statics → Type 0
  LoginsBefore n s =
      (now : ℕ) × (h : List (ℕ × ℕ × Str)) × Reach now h (force_pamcache s)
      × All (IsAuthentic env.pam) h
      × (now ≤ env.clock n)

  abbrev pub UsersBefore : ℕ → Statics → Type 0
  UsersBefore n s =
      (now : ℕ) × (h : List (ℕ × Str × User)) × Reach now h (force_pwcache s)
      × All (IsGenuine env.db aux_groups) h
      × (now ≤ env.clock n)

  -- Both caches have a history whose entries are genuine, up to the next reading of the clock.
  pub record IsTrusted (w : World) : Type 0 where
    pub logins : LoginsBefore w.reads w.statics
    pub users : UsersBefore w.reads w.statics

  -- The statics at the start, with timeouts in seconds.
  abbrev pub configured : (pw_secs pam_secs : ℕ) → Statics
  configured pw_secs pam_secs = set_pamcache_timeout pam_secs (set_pwcache_timeout pw_secs initial)

  pub configured-IsTrusted :
      (pw_secs pam_secs : ℕ)
      → IsTrusted (record { statics = configured pw_secs pam_secs; reads = 0 })
  unfolding force_pamcache force_pwcache set_pamcache_timeout set_pwcache_timeout Cache.new
      Cache.with_maxsize Cache.with_maxage
  configured-IsTrusted pw_secs pam_secs = record {
    logins = (env.clock 0, _, started (env.clock 0) 0 (pam_secs * nanos_per_sec), tt, omega arith);
    users = (env.clock 0, _, started (env.clock 0) 0 (pw_secs * nanos_per_sec), tt, omega arith);
  }

  later_reads : IsMonotone → (n : ℕ) → env.clock n ≤ env.clock (suc (suc (suc (suc n))))
  later_reads mono n =
      omega (arith, mono n, mono (suc n), mono (suc (suc n)), mono (suc (suc (suc n))))

  -- Reading the clock changes no cache.
  pub read_clock-IsTrusted : IsMonotone → (w : World) → IsTrusted w → IsTrusted (read_clock env w).1
  unfolding read_clock
  read_clock-IsTrusted mono w trusted =
      let (now, h, reach, all, le) = trusted.logins in
      let (now', h', reach', all', le') = trusted.users in
      let later = later_reads mono w.reads in
      record {
        logins = (now, h, reach, all, omega arith);
        users = (now', h', reach', all', omega arith);
      }

  pub pam_auth-IsTrusted :
      (login : Login) (w : World) (s : Statics) {r : Result (Unit {0}) ℕ}
      → IsMonotone
      → IsTrusted w
      → pam_auth env.pam (read_clock env w).0 login (read_clock env w).1.statics ≡ returned (s, r)
      → IsTrusted (record (read_clock env w).1 { statics = s })
  unfolding read_clock force_pamcache force_pwcache
  pam_auth-IsTrusted login w s mono trusted e =
      let n = w.reads in
      let (now, h, reach, all, le) = trusted.logins in
      let (now', h', reach', all', le') = trusted.users in
      let (c, ran, same) = pam_auth-inversion env.pam (read_clock env w).0 login w.statics s e in
      let (now₁, h₁, reach₁, all₁, le₁) =
        pam_auth-IsAuthentic env.pam (read_clock env w).0 login reach all
          (le, mono n, mono (suc n), mono (suc (suc n))) ran in
      let last = mono (suc (suc (suc n))) in
      subst (λ x. IsTrusted (record (read_clock env w).1 { statics = x })) same
        (record {
          logins = (now₁, h₁, reach₁, all₁, omega arith);
          users = (now', h', reach', all', omega (arith, later_reads mono n));
        })

  pub unixuser-IsTrusted :
      (username : Str) (w : World) (s : Statics) {r : Result User ℕ}
      → IsMonotone
      → IsTrusted w
      → unixuser env.db (read_clock env w).0 username aux_groups (read_clock env w).1.statics
        ≡ returned (s, r)
      → IsTrusted (record (read_clock env w).1 { statics = s })
  unfolding read_clock force_pamcache force_pwcache
  unixuser-IsTrusted username w s mono trusted e =
      let n = w.reads in
      let (now, h, reach, all, le) = trusted.logins in
      let (now', h', reach', all', le') = trusted.users in
      let (c, ran, same) =
        unixuser-inversion env.db aux_groups (read_clock env w).0 username w.statics s e in
      let (now₁, h₁, reach₁, all₁, le₁) =
        unixuser-IsGenuine env.db aux_groups (read_clock env w).0 username reach' all'
          (le', mono n, mono (suc n), mono (suc (suc n))) ran in
      let last = mono (suc (suc (suc n))) in
      subst (λ x. IsTrusted (record (read_clock env w).1 { statics = x })) same
        (record {
          logins = (now, h, reach, all, omega (arith, later_reads mono n));
          users = (now₁, h₁, reach₁, all₁, omega arith);
        })
