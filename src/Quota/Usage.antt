-- ===== src/Quota/Usage.antt =====
-- `FsQuota::system`: the numbers that it makes of a `statvfs`.
use webdav_server_rs.Prelude.{
  nat_eq, ℕ, ◌+◌, ◌-◌, ◌*◌, ◌^◌, ◌<◌, ◌≤◌, ◌≡◌, ◌∙◌, sym, ap, ◌/◌, ◌↔◌, refl, false, some, Str, ok,
  arith,
}
use native.Mathlib.Nat.{mul-div_cancel_left}
use webdav_server_rs.Quota.Data.{FsQuota, Statvfs, System, has_nul}
use webdav_server_rs.Quota.{sub64, mul64, quota_of, system}

-- A file system's own numbers: what is free is there, what is available is free, and its size in
-- bytes is a u64.
pub record IsSane (v : Statvfs) : Type 0 where
  pub free : v.f_bfree ≤ v.f_blocks
  pub available : v.f_bavail ≤ v.f_bfree
  pub bytes : v.f_blocks * v.f_bsize < 2 ^ 64
  pub blocks : v.f_blocks < 2 ^ 64
  pub files_free : v.f_ffree ≤ v.f_files
  pub files_available : v.f_favail ≤ v.f_ffree
  pub files : v.f_files < 2 ^ 64

sub64_lem : (a b : ℕ) → b ≤ a → a < 2 ^ 64 → sub64 a b ≡ a - b
sub64_lem a b h w = omega arith

sub64-sub64 : (a b c : ℕ) → c ≤ b → b ≤ a → a < 2 ^ 64 → sub64 a (sub64 b c) ≡ a - b + c
sub64-sub64 a b c h k w = omega arith

mul64_lem : (a b c : ℕ) → a ≤ b → b * c < 2 ^ 64 → mul64 a c ≡ a * c
mul64_lem a b c h w = grind arith

-- The bytes in use on a file system, by statvfs(3), and those with what is available.
abbrev pub bytes_in_use : Statvfs → ℕ
bytes_in_use v = (v.f_blocks - v.f_bfree) * v.f_frsize

abbrev pub bytes_for_users : Statvfs → ℕ
bytes_for_users v = (v.f_blocks - v.f_bfree + v.f_bavail) * v.f_frsize

cancel_units : (n a b : ℕ) → 0 < n → n * a ≡ n * b → a ≡ b
cancel_units n a b pos e =
    sym (mul-div_cancel_left a pos) ∙ ap (λ x. x / n) e ∙ mul-div_cancel_left b pos

-- Nothing wraps.
system_eq :
    (sys : System) (path : Str) (v : Statvfs)
    → has_nul path ≡ false
    → sys.statvfs path ≡ ok v
    → IsSane v
    → system sys path
      ≡ ok (record {
        bytes_used = (v.f_blocks - v.f_bfree) * v.f_bsize;
        bytes_limit = some ((v.f_blocks - v.f_bfree + v.f_bavail) * v.f_bsize);
        files_used = v.f_files - v.f_ffree;
        files_limit = some (v.f_files - v.f_ffree + v.f_favail);
      })
unfolding system quota_of
system_eq sys path v clean found sane =
    let used = v.f_blocks - v.f_bfree in
    rw
      (
        system,
        clean,
        found,
        sub64_lem v.f_blocks v.f_bfree sane.free sane.blocks,
        sub64-sub64 v.f_blocks v.f_bfree v.f_bavail sane.available sane.free sane.blocks,
        mul64_lem used v.f_blocks v.f_bsize (omega arith) sane.bytes,
        mul64_lem (used + v.f_bavail) v.f_blocks v.f_bsize (omega arith) sane.bytes,
        sub64_lem v.f_files v.f_ffree sane.files_free sane.files,
        sub64-sub64 v.f_files v.f_ffree v.f_favail sane.files_available sane.files_free sane.files,
      )
      refl

-- For a path that `statvfs` accepts, with numbers that are sane, nothing wraps. `system` gives the
-- number of blocks in use times `f_bsize`, and as the limit the number of those and of the blocks
-- that are available times `f_bsize`, where statvfs(3) says that the unit of blocks is `f_frsize`: if
-- blocks are in use, these are the bytes in use, and those with the available ones, exactly if the two
-- units are the same. For files it gives the number in use, and that with the available ones.
pub system_lem :
    (sys : System) (path : Str) (v : Statvfs)
    → has_nul path ≡ false
    → sys.statvfs path ≡ ok v
    → IsSane v
    → (q : FsQuota) × (system sys path ≡ ok q)
      × (q.bytes_used ≡ (v.f_blocks - v.f_bfree) * v.f_bsize)
      × (q.bytes_limit ≡ some ((v.f_blocks - v.f_bfree + v.f_bavail) * v.f_bsize))
      × (0 < v.f_blocks - v.f_bfree → (q.bytes_used ≡ bytes_in_use v) ↔ (v.f_bsize ≡ v.f_frsize))
      × (0 < v.f_blocks - v.f_bfree
          → (q.bytes_limit ≡ some (bytes_for_users v)) ↔ (v.f_bsize ≡ v.f_frsize))
      × (q.files_used ≡ v.f_files - v.f_ffree)
      × (q.files_limit ≡ some (v.f_files - v.f_ffree + v.f_favail))
system_lem sys path v clean found sane =
    let used = v.f_blocks - v.f_bfree in
    let all = used + v.f_bavail in
    (
      _,
      system_eq sys path v clean found sane,
      refl,
      refl,
      λ pos. (cancel_units used v.f_bsize v.f_frsize pos, ap (λ u. used * u)),
      λ pos. (
        λ e. cancel_units all v.f_bsize v.f_frsize (omega arith) (ground arith),
        ap (λ u. some (all * u)),
      ),
      refl,
      refl,
    )
