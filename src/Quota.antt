-- ===== src/Quota.antt =====
-- fs_quota/src/lib.rs: the quota of a user on a file system, and its disk usage. Built for Linux,
-- with NFS, and for release: arithmetic on u64 wraps.
pub mod Data
pub mod Table
pub mod Calls
pub mod Entry
pub mod Errors
pub mod Usage
pub mod Hosts
pub mod Totality
pub mod Sample
mod Tests
use webdav_server_rs.Prelude.{
  nat_eq, ℕ, ◌+◌, ◌-◌, ◌*◌, ◌%◌, ◌^◌, Bool, true, false, Option, none, some, unwrap_or, Str, ◌==◌,
  if◌then◌else◌, Result, ok, err, Outcome, returned, panicked, ◌>>=◌,
}
use webdav_server_rs.Quota.Data.{
  FsType, nfs, fstype, fstype_eq, FsQuota, FqError, no_quota, io_error, fq_eq, Mtab, Statvfs,
  System, has_nul,
}
use webdav_server_rs.Quota.Calls.{get_quota, get_quota_nfs}
use webdav_server_rs.Quota.Entry.{get_mtab_entry}

-- The arithmetic of `u64`.
abbrev pub sub64 : ℕ → ℕ → ℕ
sub64 a b = (a + 2 ^ 64 - b) % 2 ^ 64

abbrev pub mul64 : ℕ → ℕ → ℕ
mul64 a b = (a * b) % 2 ^ 64

-- What `FsQuota::system` makes of a `statvfs`.
unfoldable pub quota_of : Statvfs → FsQuota
quota_of vfs = record {
  bytes_used = mul64 (sub64 vfs.f_blocks vfs.f_bfree) vfs.f_bsize;
  bytes_limit = some (mul64 (sub64 vfs.f_blocks (sub64 vfs.f_bfree vfs.f_bavail)) vfs.f_bsize);
  files_used = sub64 vfs.f_files vfs.f_ffree;
  files_limit = some (sub64 vfs.f_files (sub64 vfs.f_ffree vfs.f_favail));
}

module _ (sys : System) where
  -- `FsQuota::user`
  unfoldable pub user : Str → Option ℕ → Outcome (Result FsQuota FqError)
  user path uid =
      let id = unwrap_or uid sys.getuid in
      do
        found ← get_mtab_entry sys path
        elim found [
          | err e ↦ returned (err e)
          | ok entry ↦
              if fstype_eq (fstype entry.fstype) nfs
              then get_quota_nfs sys entry id
              else returned (get_quota sys entry.device id)
        ]

  -- `FsQuota::system`
  unfoldable pub system : Str → Result FsQuota FqError
  unfolding quota_of
  system path =
      if has_nul path
      then err (io_error sys.invalid_input)
      else elim (sys.statvfs path) [ err e ↦ err (io_error e) | ok vfs ↦ ok (quota_of vfs) ]

  -- `FsQuota::check`
  unfoldable pub check : Str → Option ℕ → Outcome (Result FsQuota FqError)
  unfolding user system
  check path uid = do
    r ← user path uid
    elim r [
      | ok q ↦ returned (ok q)
      | err e ↦ if fq_eq e no_quota then returned (system path) else returned (err e)
    ]
