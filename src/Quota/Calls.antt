-- ===== src/Quota/Calls.antt =====
-- fs_quota/src/linux.rs and quota_nfs.rs: `get_quota` of both, around the C functions.
use webdav_server_rs.Prelude.{
  nat_eq, ℕ, ◌&&◌, ◌||◌, Option, none, some, Str, leb, ◌==◌, if◌then◌else◌, Result, ok, err,
  Outcome, returned, ◌>>=◌, unwrap,
}
use webdav_server_rs.Quota.Data.{
  FsQuota, FqError, permission_denied, no_quota, io_error, other_error, Mtab, Counts, System,
  has_nul,
}

-- The closure `m`: the greatest u64 stands for no limit.
unfoldable pub limit_of : ℕ → Option ℕ
limit_of v = if v == 0xffffffffffffffff then none else some v

-- The quota in what the C function stored.
unfoldable pub quota_of_counts : Counts → FsQuota
unfolding limit_of
quota_of_counts c = record {
  bytes_used = c.bytes_used;
  bytes_limit = limit_of c.bytes_limit;
  files_used = c.files_used;
  files_limit = limit_of c.files_limit;
}

module _ (sys : System) where
  -- `linux::get_quota`
  unfoldable pub get_quota : Str → ℕ → Result FsQuota FqError
  unfolding quota_of_counts
  get_quota device uid =
      if has_nul device
      then err (io_error sys.invalid_input)
      else (let c = sys.quota_linux device uid in
          if c.rc == 0
          then ok (quota_of_counts c)
          else if c.rc == 1
          then err no_quota
          else err (io_error sys.last_os_error))

  -- The rest of `quota_nfs::get_quota`, once it has the host.
  unfoldable pub get_quota_at : Str → Mtab → ℕ → Result FsQuota FqError
  unfolding quota_of_counts
  get_quota_at host entry uid =
      if has_nul host || has_nul entry.device || has_nul entry.fstype
      then err (io_error sys.invalid_input)
      else (let c = sys.quota_nfs host entry.device entry.fstype uid in
          if c.rc == 0
          then ok (quota_of_counts c)
          else if c.rc == 1
          then err other_error
          else if c.rc == 2
          then err no_quota
          else if c.rc == 3
          then err permission_denied
          else if leb 0x00100000 c.rc && leb c.rc 0x001fffff
          then err other_error
          else err other_error)

  -- `quota_nfs::get_quota`
  unfoldable pub get_quota_nfs : Mtab → ℕ → Outcome (Result FsQuota FqError)
  unfolding get_quota_at
  get_quota_nfs entry uid = do host ← unwrap entry.host; returned (get_quota_at host entry uid)
