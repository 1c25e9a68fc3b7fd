-- ===== src/Cached/Timeout.antt =====
-- The timeouts of the caches, as they are configured.
use webdav_server_rs.Prelude.{
  nat_eq, str_eq, ℕ, ◌≤◌, ◌≡◌, refl, subst, sym, ap, ap₂, ◌∙◌, Option, none, some, [], ◌∷◌, Str,
  eq_refl, Result, ok, returned, ◌>>=◌, >>=-eq-returned, arith,
}
use webdav_server_rs.Cache
use webdav_server_rs.Cache.{Intern, nanos_per_sec}
use webdav_server_rs.Cache.Freshness.{get_of_no_maxage}
use webdav_server_rs.Cache.History.{Reach, started, inserted, looked_up, insert_lem, get_lem}
use webdav_server_rs.Cached.{
  Login, PamCrate, Times, Statics, set_pamcache_timeout, force_pamcache, ask_pam, pam_auth_in,
  pam_auth,
}
use webdav_server_rs.Cached.Logins.{Accepted, ask_pam-Accepted}

-- An empty cache without a bound on the age.
abbrev ageless : Intern ℕ Str
ageless = record { maxsize = 0; maxage = 0; map = λ _. none; fifo = [] }

started_ageless : (t : ℕ) → Reach t [] ageless
unfolding Cache.new Cache.with_maxage Cache.with_maxsize
started_ageless t = started t 0 0

get_ageless :
    (now q : ℕ) (c₀ : Intern ℕ Str) {c : Intern ℕ Str} {hit : Option Str}
    → c₀ ≡ ageless
    → Cache.get now q c₀ ≡ returned (c, hit)
    → (hit ≡ none) × (c.maxage ≡ 0) × (c.maxsize ≡ 0)
get_ageless now q c₀ same e =
    let (n, _, _, found) = get_lem now q c₀ in (ground arith, ground arith, ground arith)

insert_bounds :
    (now later k : ℕ) (v : Str) (c : Intern ℕ Str) {c' : Intern ℕ Str} {r : Str}
    → Cache.insert now later k v c ≡ returned (c', r)
    → (c'.maxage ≡ c.maxage) × (c'.maxsize ≡ c.maxsize)
insert_bounds now later k v c e =
    let (n, _, _, stored) = insert_lem now later k v c in (ground arith, ground arith)

-- A cached login of the same user is let in.
pam_auth_in-hit :
    (pam : PamCrate) (t : Times) (login : Login) (c c' : Intern ℕ Str)
    → Cache.get t.lookup (pam.hash login) c ≡ returned (c', some login.user)
    → pam_auth_in pam t login c ≡ returned (c', ok tt)
unfolding pam_auth_in
pam_auth_in-hit pam t login c c' hit = rw (hit, eq_refl login.user) refl

-- A login that was let in by an empty cache of that kind is let in by it ever after.
stays_in :
    (pam pam' : PamCrate) (t t' : Times) (login : Login) (c₀ c : Intern ℕ Str)
    → c₀ ≡ ageless
    → pam'.hash login ≡ pam.hash login
    → t.lookup ≤ t.expiry
    → t.expiry ≤ t.stamp
    → t.stamp ≤ t'.lookup
    → pam_auth_in pam t login c₀ ≡ returned (c, ok tt)
    → (c' : Intern ℕ Str) × (pam_auth_in pam' t' login c ≡ returned (c', ok tt))
unfolding pam_auth_in ask_pam
stays_in pam pam' t t' login c₀ c empty hash le₁ le₂ le₃ e =
    let ((c₁, hit), found, rest) = >>=-eq-returned (Cache.get t.lookup (pam.hash login) c₀) _ e in
    let (miss, age₁, size₁) = get_ageless t.lookup (pam.hash login) c₀ empty found in
    let asked : ask_pam pam t login c₁ ≡ returned (c, ok tt) = rw miss at rest in
    let was : Accepted pam t.answer login = ask_pam-Accepted pam t login c₁ c asked in
    let ((c₂, av), stored, last) =
      >>=-eq-returned (Cache.insert t.expiry t.stamp (pam.hash login) login.user c₁) _
        (rw (was, ask_pam) at asked) in
    let (age₂, size₂) = insert_bounds t.expiry t.stamp (pam.hash login) login.user c₁ stored in
    let same : c₂ ≡ c = ground arith in
    let reach : Reach t.stamp ((t.stamp, pam.hash login, login.user) ∷ []) c₂ =
      inserted {now = t.expiry} (pam.hash login) login.user av
        (looked_up (pam.hash login) hit
          (subst (Reach t.lookup []) (sym empty) (started_ageless t.lookup)) (omega arith) found)
        le₁ le₂ stored in
    let (c₃, kept) =
      get_of_no_maxage (pam.hash login) {s = t.stamp} {v = login.user} reach le₃ (size₂ ∙ size₁)
        (age₂ ∙ age₁) (rw eq_refl refl) in
    let kept' : Cache.get t'.lookup (pam'.hash login) c ≡ returned (c₃, some login.user) =
      ap₂ (Cache.get t'.lookup) hash (sym same) ∙ kept in
    (c₃, pam_auth_in-hit pam' t' login c c₃ kept')

-- The run on the cache inside a run on the statics.
pub pam_auth-inversion :
    (pam : PamCrate) (t : Times) (login : Login) (s s' : Statics) {r : Result (Unit {0}) ℕ}
    → pam_auth pam t login s ≡ returned (s', r)
    → (c : Intern ℕ Str) × (pam_auth_in pam t login (force_pamcache s) ≡ returned (c, r))
      × (record s { pamcache = some c } ≡ s')
unfolding pam_auth
pam_auth-inversion pam t login s s' {r} e =
    let ((c, r'), ran, rest) = >>=-eq-returned (pam_auth_in pam t login (force_pamcache s)) _ e in
    (c, ran ∙ ap (λ x. returned (c, x)) (ground arith), ground arith)

pam_auth-intro :
    (pam : PamCrate) (t : Times) (login : Login) (s : Statics) {c₀ : Intern ℕ Str}
    (c : Intern ℕ Str) {r : Result (Unit {0}) ℕ}
    → force_pamcache s ≡ c₀
    → pam_auth_in pam t login c₀ ≡ returned (c, r)
    → pam_auth pam t login s ≡ returned (record s { pamcache = some c }, r)
unfolding pam_auth
pam_auth-intro pam t login s {c₀} c {r} same ran =
    ap (λ m. m >>= λ x. returned (record s { pamcache = some x.0 }, x.1))
      (ap (pam_auth_in pam t login) same ∙ ran)

force_ageless :
    (s : Statics) → s.pamcache ≡ none → force_pamcache (set_pamcache_timeout 0 s) ≡ ageless
unfolding force_pamcache set_pamcache_timeout
force_ageless s fresh = ground arith

force_some : (s : Statics) (c : Intern ℕ Str) → force_pamcache (record s { pamcache = some c }) ≡ c
unfolding force_pamcache
force_some s c = refl

-- With `cache-timeout = 0` set before the first login, a login that was let in once is let in at
-- any later time, whatever PAM would answer then: the timeout 0 does not disable the cache.
pub zero_timeout_keeps_login :
    (pam pam' : PamCrate) (t t' : Times) (login : Login) (s s' : Statics)
    → s.pamcache ≡ none
    → pam'.hash login ≡ pam.hash login
    → t.lookup ≤ t.expiry
    → t.expiry ≤ t.stamp
    → t.stamp ≤ t'.lookup
    → pam_auth pam t login (set_pamcache_timeout 0 s) ≡ returned (s', ok tt)
    → (s'' : Statics) × (pam_auth pam' t' login s' ≡ returned (s'', ok tt))
zero_timeout_keeps_login pam pam' t t' login s s' fresh hash le₁ le₂ le₃ e =
    let (c, ran, same) = pam_auth-inversion pam t login (set_pamcache_timeout 0 s) s' e in
    let (c', kept) =
      stays_in pam pam' t t' login (force_pamcache (set_pamcache_timeout 0 s)) c
        (force_ageless s fresh) hash le₁ le₂ le₃ ran in
    let s₁ : Statics = record (set_pamcache_timeout 0 s) { pamcache = some c } in
    subst (λ x. (s'' : Statics) × (pam_auth pam' t' login x ≡ returned (s'', ok tt))) same
      (
        record s₁ { pamcache = some c' },
        pam_auth-intro pam' t' login s₁ c' (force_some (set_pamcache_timeout 0 s) c) kept,
      )
