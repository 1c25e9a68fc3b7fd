-- ===== src/Cached/Overlap/Calls.antt =====
-- The calls of cache.rs as runs of the steps: `unixuser` and `pam_auth`.
use webdav_server_rs.Prelude.{
  nat_eq, str_eq, ℕ, ◌≤◌, ◌≡◌, refl, subst, inl, inr, Bool, Bool-cases, Option-cases, Result-cases,
  Option, List, Str, ◌==◌, Result, ok, returned, >>=-eq-returned, arith,
}
use webdav_server_rs.Cache
use webdav_server_rs.Cache.{Intern}
use webdav_server_rs.Cached.{Login, PamCrate, Times, ask_pam, pam_auth_in, unixuser_in}
use webdav_server_rs.Cached.Logins.{Accepted, PamAnswer-cases}
use webdav_server_rs.Cached.Overlap.{Task}
use webdav_server_rs.Unixuser.{User, Database, by_name}
use webdav_server_rs.Cached.Overlap.Runs.{InOrder, Run, machine, run_hit, run_failed, run_stored}

-- What the database says of a name.
abbrev pub Known : (ℕ → Database) → Bool → ℕ → Str → User → Type 0
Known db with_groups now name user = by_name (db now) name with_groups ≡ ok user

-- PAM accepted a login of a user with a hash.
abbrev pub Admitted : PamCrate → ℕ → ℕ → Str → Type 0
Admitted pam now hash user =
    (l : Login) × (pam.hash l ≡ hash) × (l.user ≡ user) × Accepted pam now l

-- A call of `unixuser` is such a run too.
pub unixuser_in-Run :
    (db : ℕ → Database) (with_groups : Bool) (now : ℕ) (t : Times) (username : Str)
    (c c' : Intern Str User) (r : Result User ℕ) (ts : List (Task Str User))
    → InOrder now t
    → unixuser_in db t username with_groups c ≡ returned (c', r)
    → (end : ℕ) × Run
        (Known db with_groups)
        now
        (machine (Known db with_groups) c ts)
        end
        (machine (Known db with_groups) c' ts)
      × (end ≤ t.stamp)
unfolding unixuser_in
unixuser_in-Run db with_groups now t username c c' r ts order e =
    let A = Known db with_groups in
    let ((c₁, hit), found, rest) = >>=-eq-returned (Cache.get t.lookup username c) _ e in
    elim (Option-cases hit) [
      | inr (user, cached) ↦
          let same : c₁ ≡ c' = ground arith in
          (
            t.lookup,
            subst (λ x. Run A now (machine A c ts) t.lookup (machine A x ts)) same
                (run_hit A now t.lookup username hit c c₁ ts order.0 found),
            omega (arith, order),
          )
      | inl miss ↦ elim (Result-cases (by_name (db t.answer) username with_groups)) [
        | inr (code, missing) ↦
            let same : c₁ ≡ c' = ground arith in
            (
              t.answer,
              subst (λ x. Run A now (machine A c ts) t.answer (machine A x ts)) same
                  (run_failed A now t username hit c c₁ ts order.0 order.1 found),
              omega (arith, order),
            )
        | inl (user, known) ↦
            let ((c₂, av), stored, last) =
              >>=-eq-returned (Cache.insert t.expiry t.stamp username user c₁) _
                (rw (miss, known) at rest) in
            let same : c₂ ≡ c' = ground arith in
            (
              t.stamp,
              subst (λ x. Run A now (machine A c ts) t.stamp (machine A x ts)) same
                  (run_stored A now t username user av hit c c₁ c₂ ts order found known stored),
              omega arith,
            )
      ]
    ]

-- The calls that go past the hit.
ask_pam-Run :
    (pam : PamCrate) (now : ℕ) (t : Times) (login : Login) (hit : Option Str)
    (c c₁ c' : Intern ℕ Str) (r : Result (Unit {0}) ℕ) (ts : List (Task ℕ Str))
    → InOrder now t
    → Cache.get t.lookup (pam.hash login) c ≡ returned (c₁, hit)
    → ask_pam pam t login c₁ ≡ returned (c', r)
    → (end : ℕ) × Run
        (Admitted pam)
        now
        (machine (Admitted pam) c ts)
        end
        (machine (Admitted pam) c' ts)
      × (end ≤ t.stamp)
unfolding ask_pam
ask_pam-Run pam now t login hit c c₁ c' r ts order found e =
    let A = Admitted pam in
    elim (PamAnswer-cases (pam.authenticate t.answer login.service login.user login.pass)) [
      | inl (inl unknown) ↦ absurd (ground arith)
      | inl (inr (code, refused)) ↦
          let same : c₁ ≡ c' = ground arith in
          (
            t.answer,
            subst (λ x. Run A now (machine A c ts) t.answer (machine A x ts)) same
                (run_failed A now t (pam.hash login) hit c c₁ ts order.0 order.1 found),
            omega (arith, order),
          )
      | inr was ↦
          let ((c₂, av), stored, last) =
            >>=-eq-returned (Cache.insert t.expiry t.stamp (pam.hash login) login.user c₁) _
              (rw (was, ask_pam) at e) in
          let same : c₂ ≡ c' = ground arith in
          (
            t.stamp,
            subst (λ x. Run A now (machine A c ts) t.stamp (machine A x ts)) same
                (run_stored A now t (pam.hash login) login.user av hit c c₁ c₂ ts order found
                  (login, refl, refl, was) stored),
            omega arith,
          )
    ]

-- Whatever other calls are under way, a call of `pam_auth` that returns has changed its cache by a
-- run of the steps, in the order of its readings of the clock, in which only what PAM accepted is
-- stored, and has left the other calls alone.
pub pam_auth_in-Run :
    (pam : PamCrate) (now : ℕ) (t : Times) (login : Login) (c c' : Intern ℕ Str)
    (r : Result (Unit {0}) ℕ) (ts : List (Task ℕ Str))
    → InOrder now t
    → pam_auth_in pam t login c ≡ returned (c', r)
    → (end : ℕ) × Run
        (Admitted pam)
        now
        (machine (Admitted pam) c ts)
        end
        (machine (Admitted pam) c' ts)
      × (end ≤ t.stamp)
unfolding pam_auth_in
pam_auth_in-Run pam now t login c c' r ts order e =
    let A = Admitted pam in
    let ((c₁, hit), found, rest) = >>=-eq-returned (Cache.get t.lookup (pam.hash login) c) _ e in
    elim (Option-cases hit) [
      | inl miss ↦ ask_pam-Run pam now t login hit c c₁ c' r ts order found (rw miss at rest)
      | inr (cache_user, known) ↦ elim (Bool-cases (login.user == cache_user)) [
        | inr other ↦
            ask_pam-Run pam now t login hit c c₁ c' r ts order found (rw (known, other) at rest)
        | inl own ↦
            let same : c₁ ≡ c' = ground arith in
            (
              t.lookup,
              subst (λ x. Run A now (machine A c ts) t.lookup (machine A x ts)) same
                  (run_hit A now t.lookup (pam.hash login) hit c c₁ ts order.0 found),
              omega (arith, order),
            )
      ]
    ]
