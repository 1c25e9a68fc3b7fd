-- ===== src/Cached/Accounts.antt =====
-- What an account that `unixuser` returns rests on.
use webdav_server_rs.Prelude.{
  Result-cases, str_eq, ℕ, ◌-◌, ◌≤◌, ◌<◌, ◌≡◌, subst, ap, ◌∙◌, ◌⊎◌, inl, inr, some, Bool,
  Option-cases, List, ◌∷◌, All, Str, Result, ok, returned, >>=-eq-returned, arith,
}
use webdav_server_rs.Cache
use webdav_server_rs.Cache.{Intern}
use webdav_server_rs.Cache.Freshness.{get_fresh, insert_returns}
use webdav_server_rs.Cache.History.{Reach, inserted, looked_up, latest-All_entry}
use webdav_server_rs.Cached.{Times, Statics, force_pwcache, unixuser_in, unixuser}
use webdav_server_rs.Unixuser.{User, Database, by_name}

module _ (db : ℕ → Database) (with_groups : Bool) where
  -- An entry of the cache that the database gave at an earlier time.
  abbrev pub IsGenuine : (ℕ × Str × User) → Type 0
  IsGenuine x = (now : ℕ) × (by_name (db now) x.1 with_groups ≡ ok x.2) × (now ≤ x.0)

  -- The run on the cache inside a run on the statics.
  pub unixuser-inversion :
      (t : Times) (username : Str) (s s' : Statics) {r : Result User ℕ}
      → unixuser db t username with_groups s ≡ returned (s', r)
      → (c : Intern Str User) × (unixuser_in db t username with_groups (force_pwcache s)
          ≡ returned (c, r))
        × (record s { pwcache = some c } ≡ s')
  unfolding unixuser
  unixuser-inversion t username s s' {r} e =
      let ((c, r'), ran, rest) =
        >>=-eq-returned (unixuser_in db t username with_groups (force_pwcache s)) _ e in
      (c, ran ∙ ap (λ x. returned (c, x)) (ground arith), ground arith)

  -- An account is what the database says of the name now, or what the cache has under it.
  pub unixuser_in-cases :
      (t : Times) (username : Str) (c c' : Intern Str User) (pwd : User)
      → unixuser_in db t username with_groups c ≡ returned (c', ok pwd)
      → (by_name (db t.answer) username with_groups ≡ ok pwd)
        ⊎ ((c₁ : Intern Str User) × (Cache.get t.lookup username c ≡ returned (c₁, some pwd)))
  unfolding unixuser_in
  unixuser_in-cases t username c c' pwd e =
      let ((c₁, hit), found, rest) = >>=-eq-returned (Cache.get t.lookup username c) _ e in
      elim (Option-cases hit) [
        | inl miss ↦ elim (Result-cases (by_name (db t.answer) username with_groups)) [
          | inl (user, known) ↦
              let ((c₂, av), stored, same) =
                >>=-eq-returned (Cache.insert t.expiry t.stamp username user c₁) _
                  (rw (miss, known) at rest) in
              let kept = insert_returns t.expiry t.stamp username user c₁ {r = av} stored in
              let given : user ≡ pwd = ground arith in inl (known ∙ ap ok given)
          | inr (code, missing) ↦ absurd (ground arith)
        ]
        | inr (user, cached) ↦
            let same : user ≡ pwd = ground arith in
            inr (c₁, found ∙ ap (λ r. returned (c₁, r)) (cached ∙ ap some same))
      ]

  -- In a cache whose entries come from the database, an account that `unixuser` returns is what
  -- the database says of that name now, or what it said before it was cached, at most `maxage` ago.
  pub unixuser_sound :
      (t : Times) (username : Str) {start : ℕ} {h : List (ℕ × Str × User)} {c c' : Intern Str User}
      {pwd : User}
      → Reach start h c
      → All IsGenuine h
      → start ≤ t.lookup
      → 0 < c.maxage
      → unixuser_in db t username with_groups c ≡ returned (c', ok pwd)
      → (by_name (db t.answer) username with_groups ≡ ok pwd)
        ⊎ ((now s : ℕ) × (by_name (db now) username with_groups ≡ ok pwd)
            × (now ≤ s)
            × (t.lookup - s ≤ c.maxage))
  unfolding unixuser_in
  unixuser_sound t username {h = h} {c = c} {c' = c'} {pwd = pwd} reach genuine le age e =
      let ((c₁, hit), found, rest) = >>=-eq-returned (Cache.get t.lookup username c) _ e in
      elim (Option-cases hit) [
        | inl miss ↦ elim (Result-cases (by_name (db t.answer) username with_groups)) [
          | inl (user, known) ↦
              let ((c₂, av), stored, same) =
                >>=-eq-returned (Cache.insert t.expiry t.stamp username user c₁) _
                  (rw (miss, known) at rest) in
              let kept = insert_returns t.expiry t.stamp username user c₁ {r = av} stored in
              let given : user ≡ pwd = ground arith in inl (known ∙ ap ok given)
          | inr (code, missing) ↦ absurd (ground arith)
        ]
        | inr (user, cached) ↦
            let same : user ≡ pwd = ground arith in
            let (s, newest, young) =
              get_fresh username {v = user} reach le age
                (found ∙ ap (λ r. returned (c₁, r)) cached) in
            let (now, known, before) =
              latest-All_entry IsGenuine username h {s = s} {v = user} genuine newest in
            inr (now, s, known ∙ ap ok same, before, young)
      ]

  -- Whatever `unixuser` answers, the entries of the cache come from the database afterwards too.
  pub unixuser-IsGenuine :
      (t : Times) (username : Str) {start : ℕ} {h : List (ℕ × Str × User)} {c c' : Intern Str User}
      {r : Result User ℕ}
      → Reach start h c
      → All IsGenuine h
      → (start ≤ t.lookup) × (t.lookup ≤ t.answer) × (t.answer ≤ t.expiry) × (t.expiry ≤ t.stamp)
      → unixuser_in db t username with_groups c ≡ returned (c', r)
      → (now : ℕ) × (h' : List (ℕ × Str × User)) × Reach now h' c'
        × All IsGenuine h'
        × (now ≤ t.stamp)
  unfolding unixuser_in
  unixuser-IsGenuine t username {h = h} {c = c} {c' = c'} reach genuine order e =
      let ((c₁, hit), found, rest) = >>=-eq-returned (Cache.get t.lookup username c) _ e in
      let reach₁ : Reach t.lookup h c₁ = looked_up username hit reach order.0 found in
      elim (Option-cases hit) [
        | inl miss ↦ elim (Result-cases (by_name (db t.answer) username with_groups)) [
          | inl (user, known) ↦
              let ((c₂, av), stored, last) =
                >>=-eq-returned (Cache.insert t.expiry t.stamp username user c₁) _
                  (rw (miss, known) at rest) in
              let same : c₂ ≡ c' = ground arith in
              (
                t.stamp,
                (t.stamp, username, user) ∷ h,
                subst (Reach t.stamp _) same (
                    inserted {now = t.expiry} username user av reach₁ (omega arith) order.3 stored),
                ((t.answer, known, omega arith), genuine),
                omega arith,
              )
          | inr (code, missing) ↦
              let same : c₁ ≡ c' = ground arith in
              (t.lookup, h, subst (Reach t.lookup h) same reach₁, genuine, omega arith)
        ]
        | inr (user, cached) ↦
            let same : c₁ ≡ c' = ground arith in
            (t.lookup, h, subst (Reach t.lookup h) same reach₁, genuine, omega arith)
      ]
