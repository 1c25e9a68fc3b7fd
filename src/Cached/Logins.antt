-- ===== src/Cached/Logins.antt =====
-- What a login that `pam_auth` lets in rests on.
use webdav_server_rs.Prelude.{
  nat_eq, str_eq, ℕ, ◌-◌, ◌≤◌, ◌<◌, ◌≡◌, refl, sym, subst, ap, ◌∙◌, ◌⊎◌, inl, inr, some, Bool-cases,
  Option-cases, List, ◌∷◌, All, Str, ◌==◌, eq_iff, Result, ok, returned, >>=-eq-returned, arith,
}
use webdav_server_rs.Cache
use webdav_server_rs.Cache.{Intern}
use webdav_server_rs.Cache.Freshness.{get_fresh}
use webdav_server_rs.Cache.History.{Reach, started, inserted, looked_up, latest-All_entry}
use webdav_server_rs.Cached.{
  Login, PamAnswer, no_client, rejected, accepted, PamCrate, Times, ask_pam, pam_auth_in,
}

pub PamAnswer-cases :
    (a : PamAnswer) → ((a ≡ no_client) ⊎ ((e : ℕ) × (a ≡ rejected e))) ⊎ (a ≡ accepted)
PamAnswer-cases no_client = inl (inl refl)
PamAnswer-cases (rejected e) = inl (inr (e, refl))
PamAnswer-cases accepted = inr refl

module _ (pam : PamCrate) where
  -- PAM accepted these credentials at a time.
  abbrev pub Accepted : ℕ → Login → Type 0
  Accepted now l = pam.authenticate now l.service l.user l.pass ≡ accepted

  -- An entry of the cache that comes from a login which PAM accepted before.
  abbrev pub IsAuthentic : (ℕ × ℕ × Str) → Type 0
  IsAuthentic x =
      (l : Login) × (now : ℕ) × (pam.hash l ≡ x.1) × (l.user ≡ x.2) × Accepted now l × (now ≤ x.0)

  pub ask_pam-Accepted :
      (t : Times) (login : Login) (c c' : Intern ℕ Str)
      → ask_pam pam t login c ≡ returned (c', ok tt)
      → Accepted t.answer login
  unfolding ask_pam
  ask_pam-Accepted t login c c' e = ground arith

  -- A login is let in only if PAM accepts it now, or if the cache has its user under its hash.
  pub pam_auth_in-cases :
      (t : Times) (login : Login) (c c' : Intern ℕ Str)
      → pam_auth_in pam t login c ≡ returned (c', ok tt)
      → Accepted t.answer login
        ⊎ ((c₁ : Intern ℕ Str) × (Cache.get t.lookup (pam.hash login) c
              ≡ returned (c₁, some login.user)))
  unfolding pam_auth_in
  pam_auth_in-cases t login c c' e =
      let ((c₁, hit), found, rest) = >>=-eq-returned (Cache.get t.lookup (pam.hash login) c) _ e in
      elim (Option-cases hit) [
        | inl miss ↦ inl (ask_pam-Accepted t login c₁ c' (rw miss at rest))
        | inr (cache_user, known) ↦ elim (Bool-cases (login.user == cache_user)) [
          | inr other ↦ inl (ask_pam-Accepted t login c₁ c' (rw (known, other) at rest))
          | inl same ↦
              let user = sym ((eq_iff login.user cache_user).0 same) in
              inr (c₁, found ∙ ap (λ r. returned (c₁, r)) (known ∙ ap some user))
        ]
      ]

  -- What a cache took in, it took in by now.
  Reach-earlier :
      {start : ℕ} {h : List (ℕ × ℕ × Str)} {c : Intern ℕ Str} (later : ℕ)
      → Reach start h c
      → start ≤ later
      → All (λ (x : ℕ × ℕ × Str). x.0 ≤ later) h
  Reach-earlier later (started t size age) le = tt
  Reach-earlier later (inserted {t} {now} k v r before le₁ le₂ e) le =
      (le, Reach-earlier later before (omega arith))
  Reach-earlier later (looked_up {t} {now} q r before le₁ e) le =
      Reach-earlier later before (omega arith)

  -- In a cache whose entries come from accepted logins, a login is let in only if PAM accepts it
  -- now, or if PAM accepted, and the cache took in at most `maxage` ago, a login of the same user
  -- with the same hash. If the hash tells the logins apart, that is the same login.
  pub pam_auth_sound :
      (t : Times) (login : Login) {start : ℕ} {h : List (ℕ × ℕ × Str)} {c c' : Intern ℕ Str}
      → Reach start h c
      → All IsAuthentic h
      → start ≤ t.lookup
      → 0 < c.maxage
      → pam_auth_in pam t login c ≡ returned (c', ok tt)
      → Accepted t.answer login
        ⊎ ((l : Login) × (now s : ℕ) × (pam.hash l ≡ pam.hash login)
            × (l.user ≡ login.user)
            × Accepted now l
            × (now ≤ s)
            × (s ≤ t.lookup)
            × (t.lookup - s ≤ c.maxage))
  unfolding pam_auth_in
  pam_auth_sound t login {h = h} {c = c} {c' = c'} reach authentic le age e =
      let ((c₁, hit), found, rest) = >>=-eq-returned (Cache.get t.lookup (pam.hash login) c) _ e in
      elim (Option-cases hit) [
        | inl miss ↦ inl (ask_pam-Accepted t login c₁ c' (rw miss at rest))
        | inr (cache_user, known) ↦ elim (Bool-cases (login.user == cache_user)) [
          | inr other ↦ inl (ask_pam-Accepted t login c₁ c' (rw (known, other) at rest))
          | inl same ↦
              let (s, newest, young) =
                get_fresh (pam.hash login) {v = cache_user} reach le age
                  (found ∙ ap (λ r. returned (c₁, r)) known) in
              let (l, now, hashed, user, was, before) =
                latest-All_entry IsAuthentic (pam.hash login) h {v = cache_user} authentic newest in
              inr (
                l,
                now,
                s,
                hashed,
                user ∙ sym ((eq_iff login.user cache_user).0 same),
                was,
                before,
                latest-All_entry (λ (x : ℕ × ℕ × Str). x.0 ≤ t.lookup) (pam.hash login) h {s = s}
                    {v = cache_user} (Reach-earlier t.lookup reach le) newest,
                young,
              )
        ]
      ]

  -- The readings of the clock are in order.
  abbrev pub InOrder : ℕ → Times → Type 0
  InOrder start t =
      (start ≤ t.lookup) × (t.lookup ≤ t.answer) × (t.answer ≤ t.expiry) × (t.expiry ≤ t.stamp)

  ask_pam-IsAuthentic :
      (t : Times) (login : Login) {start : ℕ} {h : List (ℕ × ℕ × Str)} {c c' : Intern ℕ Str}
      {r : Result (Unit {0}) ℕ}
      → Reach start h c
      → All IsAuthentic h
      → start ≤ t.answer
      → t.answer ≤ t.expiry
      → t.expiry ≤ t.stamp
      → ask_pam pam t login c ≡ returned (c', r)
      → (now : ℕ) × (h' : List (ℕ × ℕ × Str)) × Reach now h' c'
        × All IsAuthentic h'
        × (now ≤ t.stamp)
  unfolding ask_pam
  ask_pam-IsAuthentic t login {start} {h} {c} {c'} {r} reach authentic le₁ le₂ le₃ e =
      elim (PamAnswer-cases (pam.authenticate t.answer login.service login.user login.pass)) [
        | inl (inl unknown) ↦ absurd (ground arith)
        | inl (inr (code, refused)) ↦
            let same : c ≡ c' = ground arith in
            (start, h, subst (Reach start h) same reach, authentic, omega arith)
        | inr was ↦
            let ((c₁, av), ran, rest) =
              >>=-eq-returned (Cache.insert t.expiry t.stamp (pam.hash login) login.user c) _
                (rw (was, ask_pam) at e) in
            let same : c₁ ≡ c' = ground arith in
            (
              t.stamp,
              (t.stamp, pam.hash login, login.user) ∷ h,
              subst (Reach t.stamp _) same (
                  inserted {now = t.expiry} (pam.hash login) login.user av reach (omega arith) le₃
                    ran),
              ((login, t.answer, refl, refl, was, omega arith), authentic),
              omega arith,
            )
      ]

  -- Whatever `pam_auth` answers, the entries of the cache come from accepted logins afterwards too.
  pub pam_auth-IsAuthentic :
      (t : Times) (login : Login) {start : ℕ} {h : List (ℕ × ℕ × Str)} {c c' : Intern ℕ Str}
      {r : Result (Unit {0}) ℕ}
      → Reach start h c
      → All IsAuthentic h
      → InOrder start t
      → pam_auth_in pam t login c ≡ returned (c', r)
      → (now : ℕ) × (h' : List (ℕ × ℕ × Str)) × Reach now h' c'
        × All IsAuthentic h'
        × (now ≤ t.stamp)
  unfolding pam_auth_in
  pam_auth-IsAuthentic t login {h = h} {c = c} {c' = c'} reach authentic order e =
      let ((c₁, hit), found, rest) = >>=-eq-returned (Cache.get t.lookup (pam.hash login) c) _ e in
      let reach₁ : Reach t.lookup h c₁ = looked_up (pam.hash login) hit reach order.0 found in
      let ask = λ (ran : ask_pam pam t login c₁ ≡ returned (c', _)).
        ask_pam-IsAuthentic t login reach₁ authentic order.1 order.2 order.3 ran in
      elim (Option-cases hit) [
        | inl miss ↦ ask (rw miss at rest)
        | inr (cache_user, known) ↦ elim (Bool-cases (login.user == cache_user)) [
          | inr other ↦ ask (rw (known, other) at rest)
          | inl same ↦
              let kept : c₁ ≡ c' = ground arith in
              (t.lookup, h, subst (Reach t.lookup h) kept reach₁, authentic, omega arith)
        ]
      ]
