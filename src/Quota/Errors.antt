-- ===== src/Quota/Errors.antt =====
-- The errors of quotas: their equality, and those of the C functions.
use webdav_server_rs.Prelude.{
  nat_eq, ℕ, ◌≡◌, ◌≢◌, ◌↔◌, refl, ap, ◌∙◌, ◌⊎◌, inl, inr, Bool-cases, Result-cases, true, eq_iff,
  Option, Str, Result, err, returned, arith,
}
use webdav_server_rs.Quota.Data.{
  FsQuota, FqError, permission_denied, no_quota, io_error, other_error, to_num, fq_eq, System,
}
use webdav_server_rs.Quota.{user, system, check}

-- The equality of errors is that of the variants, and of the kinds of I/O errors.
pub fq_eq_iff : (a b : FqError) → (fq_eq a b ≡ true) ↔ (a ≡ b)
unfolding fq_eq to_num
fq_eq_iff permission_denied permission_denied = ground arith
fq_eq_iff permission_denied no_quota = ground arith
fq_eq_iff permission_denied (io_error k) = ground arith
fq_eq_iff permission_denied other_error = ground arith
fq_eq_iff no_quota permission_denied = ground arith
fq_eq_iff no_quota no_quota = ground arith
fq_eq_iff no_quota (io_error k) = ground arith
fq_eq_iff no_quota other_error = ground arith
fq_eq_iff (io_error e) permission_denied = ground arith
fq_eq_iff (io_error e) no_quota = ground arith
fq_eq_iff (io_error e) (io_error k) = ground (arith, eq_iff e k)
fq_eq_iff (io_error e) other_error = ground arith
fq_eq_iff other_error permission_denied = ground arith
fq_eq_iff other_error no_quota = ground arith
fq_eq_iff other_error (io_error k) = ground arith
fq_eq_iff other_error other_error = ground arith

-- `check` gives the user's quota or the error that its lookup meets, but for the error that there
-- are no quotas: then, and only then, it gives the usage of the whole file system.
pub check_lem :
    (sys : System) (path : Str) (uid : Option ℕ) (r : Result FsQuota FqError)
    → user sys path uid ≡ returned r
    → ((r ≡ err no_quota) × (check sys path uid ≡ returned (system sys path)))
      ⊎ ((r ≢ err no_quota) × (check sys path uid ≡ returned r))
unfolding check
check_lem sys path uid r e = elim (Result-cases r) [
  | inl (q, found) ↦ inr (λ h. ground arith, rw (check, e, found) refl)
  | inr (x, failed) ↦ elim (Bool-cases (fq_eq x no_quota)) [
    | inl same ↦
        inl (failed ∙ ap err ((fq_eq_iff x no_quota).0 same), rw (check, e, failed, same) refl)
    | inr differs ↦
        inr (λ h. ground (arith, fq_eq_iff x no_quota), rw (check, e, failed, differs) refl)
  ]
]
