-- ===== src/Server/Calls/Accounts.antt =====
-- The accounts with which requests are served.
use webdav_server_rs.Prelude.{
  nat_eq, str_eq, ℕ, ◌≡◌, ◌≤◌, ap, ◌∙◌, subst, ltb, refl, ◌⊎◌, ap₂, inl, inr, Bool-cases,
  Option-cases, Option, none, some, or, Str, if◌then◌else◌, Result, ok, err, Outcome, returned,
  panicked, >>=-eq-returned, arith,
}
use webdav_server_rs.Config.{SocketAddr, Location, Config}
use webdav_server_rs.Config.Enums.{AcctType}
use webdav_server_rs.Http.{StatusCode, forbidden, Environment, World, read_clock}
use webdav_server_rs.Unixuser.{User, by_name}
use webdav_server_rs.Cached.{Statics, force_pwcache, unixuser}
use webdav_server_rs.Cached.Accounts.{unixuser-inversion, unixuser_in-cases}
use webdav_server_rs.Cache
use webdav_server_rs.Cache.{Intern}
use webdav_server_rs.Dav.{DavCrate}
use webdav_server_rs.Server.{check_uid, acct}

or-cases :
    {A : Type 0} (a b : Option A) (x : A)
    → or a b ≡ some x
    → (a ≡ some x) ⊎ ((a ≡ none) × (b ≡ some x))
or-cases none b x e = inr (refl, e)
or-cases (some y) b x e = inl e

module _ (env : Environment) (dav : DavCrate) (config : Config dav.MethodSet) (remote : SocketAddr)
    (location : Location dav.MethodSet) where
  -- An account that was looked up under a name, from one state of the world to another: the
  -- database has it, or the cache of the first state. Its uid is not below the least one.
  pub record IsAccount (w w' : World) (user : Str) (p : User) : Type 0 where
    pub configured : or location.accounts.acct_type config.accounts.acct_type ≡ some AcctType.unix
    pub looked_up :
        unixuser env.db (read_clock env w).0 user config.unix.aux_groups w.statics
        ≡ returned (w'.statics, ok p)
    pub source :
        (by_name (env.db (read_clock env w).0.answer) user config.unix.aux_groups ≡ ok p)
        ⊎ ((c : Intern Str User) × (Cache.get
                (read_clock env w).0.lookup
                user
                (force_pwcache w.statics)
              ≡ returned (c, some p)))
    pub uid_le : (m : ℕ) → config.unix.min_uid ≡ some m → m ≤ p.uid

  uid_of_least :
      (q p : User) (least : ℕ)
      → (if ltb q.uid least then err forbidden else ok (some q)) ≡ ok (some p)
      → config.unix.min_uid ≡ some least
      → (◌≡◌ {A = Result User ℕ} (ok q) (ok p))
        × ((m : ℕ) → config.unix.min_uid ≡ some m → m ≤ p.uid)
  uid_of_least q p least e set = elim (Bool-cases (ltb q.uid least)) [
    | inl low ↦ absurd (ground arith)
    | inr high ↦
        let same : q ≡ p = ground arith in
        (
          ap ok same,
          λ m h.
              let least_le : least ≤ q.uid = ground arith in
              let named : least ≡ m = ground arith in
              subst (λ u. m ≤ u.uid) same (subst (λ n. n ≤ q.uid) named least_le),
        )
  ]

  check_uid-some :
      (r : Result User ℕ) (p : User)
      → check_uid env dav config remote r ≡ ok (some p)
      → (r ≡ ok p) × ((m : ℕ) → config.unix.min_uid ≡ some m → m ≤ p.uid)
  unfolding check_uid
  check_uid-some (err _) p e = ground arith
  check_uid-some (ok q) p e = elim (Option-cases config.unix.min_uid) [
    | inl unset ↦ (ground arith, λ m h. absurd (ground arith))
    | inr (least, set) ↦ uid_of_least q p least (rw set at e) set
  ]

  no_account :
      {w w' : World} {p : User}
      → ◌≡◌ {A = Outcome (World × Result (Option User) StatusCode)}
          (returned (w, ok none))
          (returned (w', ok (some p)))
      → ⊥
  no_account e = ground arith

  abbrev second_of :
      Outcome (World × Result (Option User) StatusCode) → Result (Option User) StatusCode
  second_of (returned (_, r)) = r
  second_of panicked = ok none

  acct_unix :
      (w w' : World) (user : Str) (p : User) (statics : Statics) (r : Result User ℕ)
      → or location.accounts.acct_type config.accounts.acct_type ≡ some AcctType.unix
      → unixuser env.db (read_clock env w).0 user config.unix.aux_groups w.statics
        ≡ returned (statics, r)
      → statics ≡ w'.statics
      → check_uid env dav config remote r ≡ ok (some p)
      → IsAccount w w' user p
  acct_unix w w' user p statics r set asked kept e =
      let t = (read_clock env w).0 in
      let (found, uid_le) = check_uid-some r p e in
      let ran = asked ∙ ap₂ (λ x y. returned (x, y)) kept found in
      let (c, inside, _) =
        unixuser-inversion env.db config.unix.aux_groups t user w.statics w'.statics ran in
      record {
        configured = set;
        looked_up = ran;
        source =
            unixuser_in-cases env.db config.unix.aux_groups t user (force_pwcache w.statics) c p
              inside;
        uid_le = uid_le;
      }

  abbrev statics_of : Statics → Outcome (World × Result (Option User) StatusCode) → Statics
  statics_of s (returned (w, _)) = w.statics
  statics_of s panicked = s

  -- An account that `acct` gives was looked up, by a location with Unix accounts, under the name of
  -- the user who logged in, or, without a login, under the :user of the path: the database has it
  -- under this name, or the cache had it there before the call. Its uid is not below `min_uid`.
  pub acct-IsAccount :
      (auth_user user_param : Option Str) (w w' : World) (p : User)
      → acct env dav config remote location auth_user user_param w ≡ returned (w', ok (some p))
      → (user : Str) × ((auth_user ≡ some user) ⊎ ((auth_user ≡ none) × (user_param ≡ some user)))
        × IsAccount w w' user p
  unfolding acct read_clock
  acct-IsAccount auth_user user_param w w' p e = elim (Option-cases (or auth_user user_param)) [
    | inl nobody ↦ absurd (no_account (rw (acct, nobody) at e))
    | inr (user, named) ↦
        elim (Option-cases (or location.accounts.acct_type config.accounts.acct_type)) [
          | inl unset ↦ absurd (no_account (rw (acct, named, unset) at e))
          | inr (AcctType.unix, set) ↦
              let ((statics, r), asked, e₁) =
                >>=-eq-returned
                  (unixuser env.db (read_clock env w).0 user config.unix.aux_groups w.statics) _
                  (rw (acct, named, set) at e) in
              (
                user,
                or-cases auth_user user_param user named,
                acct_unix w w' user p statics r set asked (ap (statics_of statics) e₁)
                    (ap second_of e₁),
              )
        ]
  ]
