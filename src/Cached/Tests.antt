-- ===== src/Cached/Tests.antt =====
-- Logins and account lookups on small caches, and the theorems applied to them.
use webdav_server_rs.Prelude.{
  nat_eq, str_eq, ℕ, ◌≤◌, ◌≡◌, refl, true, none, [], ◌∷◌, All, Str, bytes, ok, returned, arith,
}
use webdav_server_rs.Cache
use webdav_server_rs.Cache.{Intern}
use webdav_server_rs.Cache.History.{Reach, started, inserted, push, cut}
use webdav_server_rs.Unixuser.{User, by_name}
use webdav_server_rs.Cached.{
  Login, Times, Statics, initial, set_pamcache_timeout, ask_pam, force_pamcache, pam_auth_in,
  pam_auth, unixuser_in,
}
use webdav_server_rs.Cached.Logins.{IsAuthentic}
use webdav_server_rs.Cached.Overlap.{
  asked, answered, Machine, looked, asks, answers, stores, Reaches, begins, steps,
}
use webdav_server_rs.Cached.Overlap.Calls.{Known, Admitted, pam_auth_in-Run}
use webdav_server_rs.Cached.Overlap.Runs.{Run}
use webdav_server_rs.Cached.Timeout.{zero_timeout_keeps_login}
use webdav_server_rs.Sample.{mike, accounts, one_password, no_password}

program : Unit {0}
unfolding pam_auth_in pam_auth ask_pam force_pamcache set_pamcache_timeout unixuser_in by_name
    Cache.insert Cache.get Cache.new Cache.with_maxsize Cache.with_maxage
program = tt

abbrev at : ℕ → Times
at now = record { lookup = now; answer = now; expiry = now; stamp = now }

abbrev login : Login
login = record { service = bytes "other"; user = mike; pass = bytes "secret"; remip = none }

abbrev no_logins : Intern ℕ Str
no_logins = record { maxsize = 0; maxage = 50; map = λ _. none; fifo = [] }

-- A cache with the login at the time 100.
abbrev logins : Intern ℕ Str
logins = push 100 6 mike (cut 0 no_logins)

logins-Reach : Reach 100 ((100, 6, mike) ∷ []) logins
unfolding program
logins-Reach = inserted {now = 100} 6 mike mike (started 90 0 50) (omega arith) (omega arith) refl

logins-IsAuthentic : All (IsAuthentic one_password) ((100, 6, mike) ∷ [])
logins-IsAuthentic = ((login, 99, refl, refl, refl, omega arith), tt)

login_ran :
    (c : Intern ℕ Str) × (pam_auth_in one_password (at 120) login logins ≡ returned (c, ok tt))
unfolding program
login_ran = (_, refl)

login_ageless :
    (s : Statics) × (pam_auth one_password (at 100) login (set_pamcache_timeout 0 initial)
      ≡ returned (s, ok tt))
unfolding program
login_ageless = (_, refl)

zero_timeout_keeps_login_example :
    (s : Statics) × (pam_auth no_password (at 900000) login login_ageless.0 ≡ returned (s, ok tt))
zero_timeout_keeps_login_example =
    zero_timeout_keeps_login one_password no_password (at 100) (at 900000) login initial
      login_ageless.0 refl refl (omega arith) (omega arith) (omega arith) login_ageless.1

abbrev mike_user : User
mike_user = record {
  name = mike;
  passwd = bytes "x";
  gecos = [];
  uid = 1000;
  gid = 100;
  groups = 27 ∷ [];
  dir = bytes "/home/mike";
  shell = bytes "/bin/sh";
}

abbrev no_users : Intern Str User
no_users = record { maxsize = 0; maxage = 50; map = λ _. none; fifo = [] }

abbrev users : Intern Str User
users = push 100 mike mike_user (cut 0 no_users)

abbrev Says : ℕ → Str → User → Type 0
Says = Known (λ _. accounts) true

-- Two calls for one name overlap: both miss, and both store their answers.
overlapped : (m : Machine Str User) × Reaches Says 113 m
unfolding program
overlapped = (
  _,
  steps
      (steps
        (steps
          (steps
            (steps
              (steps
                (steps (steps (begins 90 0 50) (looked 100 mike _ none (omega arith) refl))
                  (asks mike))
                (looked 101 mike _ none (omega arith) refl))
              (asks mike))
            (answers 110 mike mike_user (asked mike ∷ []) [] (omega arith) refl refl))
          (answers 111 mike mike_user [] (answered 110 mike mike_user ∷ []) (omega arith) refl
            refl))
        (stores 112 112 110 mike mike_user mike_user _ (answered 111 mike mike_user ∷ []) []
          (omega arith) (omega arith) refl refl))
      (stores 113 113 111 mike mike_user mike_user _ [] [] (omega arith) (omega arith) refl refl),
)

pam_auth_in-Run_example :
    (end : ℕ) × Run
      (Admitted one_password)
      100
      (record { cache = logins; tasks = asked 3 ∷ [] })
      end
      (record { cache = login_ran.0; tasks = asked 3 ∷ [] })
    × (end ≤ (at 120).stamp)
pam_auth_in-Run_example =
    pam_auth_in-Run one_password 100 (at 120) login logins login_ran.0 (ok tt) (asked 3 ∷ [])
      (omega arith) login_ran.1
