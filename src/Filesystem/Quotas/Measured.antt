-- ===== src/Filesystem/Quotas/Measured.antt =====
-- Where the quotas that `UserFs::get_quota` answers come from.
use webdav_server_rs.Prelude.{
  ℕ, ◌^◌, ◌≤◌, ◌<◌, ◌≡◌, refl, sym, ap, ap₂, ◌∙◌, ◌⊎◌, inl, inr, Option, none, some, Option-cases,
  Result-cases, List, Str, Result, ok, err, returned, >>=-eq-returned, arith,
}
use webdav_server_rs.Cache
use webdav_server_rs.Cache.{Intern}
use webdav_server_rs.Cache.Freshness.{insert_returns}
use webdav_server_rs.Cached.{Times}
use webdav_server_rs.Cached.Overlap.{Task}
use webdav_server_rs.Cached.Overlap.Runs.{InOrder, Run, machine, run_hit, run_failed, run_stored}
use webdav_server_rs.Filesystem.{UserFs}
use webdav_server_rs.Filesystem.Local.{LocalFsCrate, CallsClosure}
use webdav_server_rs.Filesystem.Quotas.{Key, key_eq, key_of, QuotaCache, measure, get_quota}
use webdav_server_rs.Quota.{check}
use webdav_server_rs.Quota.Data.{FsQuota, System}

module _ (c : LocalFsCrate) (sys : ℕ → System) (direct : CallsClosure c) where
  -- What `FsQuota::check` says at a time, of a directory and a uid.
  abbrev pub Checked : ℕ → Str → ℕ → FsQuota → Type 0
  Checked now basedir uid q = check (sys now) basedir (some uid) ≡ returned (ok q)

  measure-inversion :
      (now : ℕ) (u : UserFs) (q : FsQuota)
      → measure c sys now u ≡ returned (ok q)
      → Checked now u.basedir u.uid q
  unfolding measure
  measure-inversion now u q e =
      let (r, ran, rest) = >>=-eq-returned (check (sys now) u.basedir (some u.uid)) _ e in
      elim (Result-cases r) [
        | inl (q', good) ↦ let same : q' ≡ q = ground arith in ran ∙ ap returned (good ∙ ap ok same)
        | inr (k, bad) ↦ absurd (ground arith)
      ]

  -- A hit, an error, or a quota that is looked up and kept.
  get_quota-inversion :
      (t : Times) (u : UserFs) (qc qc' : QuotaCache) (r : Result (ℕ × Option ℕ) c.FsError)
      → get_quota c sys t u qc ≡ returned (qc', r)
      → ((q : FsQuota) × (Cache.get t.lookup (key_of u.basedir u.uid) qc ≡ returned (qc', some q))
          × (r ≡ ok (q.bytes_used, q.bytes_limit)))
        ⊎ (((e : c.FsError) × (Cache.get t.lookup (key_of u.basedir u.uid) qc
                ≡ returned (qc', none))
              × (r ≡ err e))
            ⊎ ((qc₁ : QuotaCache) × (q q' : FsQuota) × (Cache.get t.lookup
                    (key_of u.basedir u.uid)
                    qc
                  ≡ returned (qc₁, none))
                × Checked t.answer u.basedir u.uid q
                × (Cache.insert t.expiry t.stamp (key_of u.basedir u.uid) q qc₁
                    ≡ returned (qc', q'))
                × (r ≡ ok (q.bytes_used, q.bytes_limit))))
  unfolding get_quota
  get_quota-inversion t u qc qc' r e =
      let key = key_of u.basedir u.uid in
      let ((qc₁, hit), found, rest) = >>=-eq-returned (Cache.get t.lookup key qc) _ e in
      elim (Option-cases hit) [
        | inr (q, cached) ↦
            let same : qc₁ ≡ qc' = ground arith in
            inl (q, found ∙ ap returned (ap₂ (λ a b. (a, b)) same cached), ground arith)
        | inl miss ↦
            let (m, ran, rest') =
              >>=-eq-returned (c.blocking u.fs (λ _. measure c sys t.answer u)) _
                (rw miss at rest) in
            elim (Result-cases m) [
              | inr (k, bad) ↦
                  let same : qc₁ ≡ qc' = ground arith in
                  inr (inl (k, found ∙ ap returned (ap₂ (λ a b. (a, b)) same miss), ground arith))
              | inl (q, good) ↦
                  let ((qc₂, q'), stored, last) =
                    >>=-eq-returned (Cache.insert t.expiry t.stamp key q qc₁) _
                      (rw good at rest') in
                  let same : qc₂ ≡ qc' = ground arith in
                  let kept = insert_returns t.expiry t.stamp key q qc₁ {r = q'} stored in
                  inr (
                    inr (
                      qc₁,
                      q,
                      q',
                      found ∙ ap (λ h. returned (qc₁, h)) miss,
                      measure-inversion t.answer u q (
                          sym (direct u.fs (λ _. measure c sys t.answer u))
                          ∙ ran
                          ∙ ap returned good),
                      stored ∙ ap (λ a. returned (a, q')) same,
                      ground arith,
                    ))
            ]
      ]

  -- What is stored: a quota of a directory and a uid with that key.
  abbrev pub Measured : ℕ → Key → FsQuota → Type 0
  Measured now key q =
      (basedir : Str) × (uid : ℕ) × (uid < 2 ^ 32)
      × (key_of basedir uid ≡ key)
      × Checked now basedir uid q

  -- A call of `get_quota` is a run of the steps on its cache, whatever other calls are under way.
  pub get_quota-Run :
      (now : ℕ) (t : Times) (u : UserFs) (qc qc' : QuotaCache) (r : Result (ℕ × Option ℕ) c.FsError)
      (ts : List (Task Key FsQuota))
      → InOrder now t
      → u.uid < 2 ^ 32
      → get_quota c sys t u qc ≡ returned (qc', r)
      → (end : ℕ) × Run Measured now (machine Measured qc ts) end (machine Measured qc' ts)
        × (end ≤ t.stamp)
  get_quota-Run now t u qc qc' r ts order small e =
      let key = key_of u.basedir u.uid in
      elim (get_quota-inversion t u qc qc' r e) [
        | inl (q, found, _) ↦ (
          t.lookup,
          run_hit Measured now t.lookup key (some q) qc qc' ts order.0 found,
          omega (arith, order),
        )
        | inr (inl (k, found, _)) ↦ (
          t.answer,
          run_failed Measured now t key none qc qc' ts order.0 order.1 found,
          omega (arith, order),
        )
        | inr (inr (qc₁, q, q', found, checked, stored, _)) ↦ (
          t.stamp,
          run_stored Measured now t key q q' none qc qc₁ qc' ts order found
              (u.basedir, u.uid, small, refl, checked) stored,
          omega arith,
        )
      ]
