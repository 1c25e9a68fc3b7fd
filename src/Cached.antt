-- ===== src/Cached.antt =====
-- cache.rs, the module `cached`: the caches of account lookups and of PAM logins.
pub mod Logins
pub mod Accounts
pub mod Timeout
pub mod Overlap
mod Tests
use webdav_server_rs.Prelude.{
  nat_eq, str_eq, ℕ, ◌*◌, Bool, true, false, Option, none, some, List, [], ◌∷◌, Str, ◌==◌,
  if◌then◌else◌, Result, ok, err, Outcome, returned, panicked, ◌>>=◌,
}
use webdav_server_rs.Cache
use webdav_server_rs.Cache.{Intern, nanos_per_sec}
use webdav_server_rs.Unixuser.{User, Database, by_name}

-- The arguments of `pam_auth`: the PAM service, the credentials, and the client's address.
pub record Login : Type 0 where
  pub service : Str
  pub user : Str
  pub pass : Str
  pub remip : Option Str

-- What becomes of a login at the PAM library: no client, a failure with its code, or success.
pub data PamAnswer : Type 0 where
  no_client : PamAnswer
  rejected : ℕ → PamAnswer
  accepted : PamAnswer

-- The crate pam, and the standard library's `DefaultHasher`. PAM is asked at a time, with the
-- service and the credentials.
pub record PamCrate : Type 0 where
  pub authenticate : ℕ → Str → Str → Str → PamAnswer
  pub hash : Login → ℕ

-- `TIMEOUTS`, `PWCACHE` and `PAMCACHE`. A cache is `none` until its first use.
pub record Statics : Type 0 where
  pub pw_timeout : ℕ
  pub pam_timeout : ℕ
  pub pwcache : Option (Intern Str User)
  pub pamcache : Option (Intern ℕ Str)

abbrev pub default_timeout : ℕ
default_timeout = 120 * nanos_per_sec

abbrev pub initial : Statics
initial = record {
  pw_timeout = default_timeout;
  pam_timeout = default_timeout;
  pwcache = none;
  pamcache = none;
}

unfoldable pub set_pwcache_timeout : ℕ → Statics → Statics
set_pwcache_timeout secs s = record s { pw_timeout = secs * nanos_per_sec }

unfoldable pub set_pamcache_timeout : ℕ → Statics → Statics
set_pamcache_timeout secs s = record s { pam_timeout = secs * nanos_per_sec }

-- The first use of a cache makes it, with the timeout of that moment (`new_pwcache`,
-- `new_pamcache`).
unfoldable pub force_pwcache : Statics → Intern Str User
unfolding Cache.new Cache.with_maxage
force_pwcache s = elim s.pwcache [ some c ↦ c | none ↦ Cache.with_maxage s.pw_timeout Cache.new ]

unfoldable pub force_pamcache : Statics → Intern ℕ Str
unfolding Cache.new Cache.with_maxage
force_pamcache s = elim s.pamcache [ some c ↦ c | none ↦ Cache.with_maxage s.pam_timeout Cache.new ]

-- The readings of the clock during one call: by `get`, when PAM or the database answers, and the
-- two by `insert`.
pub record Times : Type 0 where
  pub lookup : ℕ
  pub answer : ℕ
  pub expiry : ℕ
  pub stamp : ℕ

module _ (pam : PamCrate) where
  -- `pam_auth`, from the miss on.
  unfoldable pub ask_pam :
      Times → Login → Intern ℕ Str → Outcome (Intern ℕ Str × Result (Unit {0}) ℕ)
  ask_pam t login c = elim (pam.authenticate t.answer login.service login.user login.pass) [
    | no_client ↦ panicked
    | rejected e ↦ returned (c, err e)
    | accepted ↦ (do
      (c', _) ← Cache.insert t.expiry t.stamp (pam.hash login) login.user c
      returned (c', ok tt))
  ]

  -- `pam_auth`, on the cache.
  unfoldable pub pam_auth_in :
      Times → Login → Intern ℕ Str → Outcome (Intern ℕ Str × Result (Unit {0}) ℕ)
  pam_auth_in t login c = do
    (c', hit) ← Cache.get t.lookup (pam.hash login) c
    elim hit [
      | none ↦ ask_pam t login c'
      | some cache_user ↦
          if login.user == cache_user then returned (c', ok tt) else ask_pam t login c'
    ]

  unfoldable pub pam_auth : Times → Login → Statics → Outcome (Statics × Result (Unit {0}) ℕ)
  pam_auth t login s = do
    (c, r) ← pam_auth_in t login (force_pamcache s)
    returned (record s { pamcache = some c }, r)

-- The database may change with time.
module _ (db : ℕ → Database) where
  -- `unixuser`, on the cache.
  unfoldable pub unixuser_in :
      Times → Str → Bool → Intern Str User → Outcome (Intern Str User × Result User ℕ)
  unixuser_in t username with_groups c = do
    (c', hit) ← Cache.get t.lookup username c
    elim hit [
      | some pwd ↦ returned (c', ok pwd)
      | none ↦ elim (by_name (db t.answer) username with_groups) [
        | err e ↦ returned (c', err e)
        | ok pwd ↦ (do
          (c'', av) ← Cache.insert t.expiry t.stamp username pwd c'
          returned (c'', ok av))
      ]
    ]

  unfoldable pub unixuser : Times → Str → Bool → Statics → Outcome (Statics × Result User ℕ)
  unixuser t username with_groups s = do
    (c, r) ← unixuser_in t username with_groups (force_pwcache s)
    returned (record s { pwcache = some c }, r)
