-- ===== src/Quota/Data.antt =====
-- fs_quota/src/lib.rs: types of file systems, quotas, errors, and entries of the mount table. The
-- operating system is a parameter.
use webdav_server_rs.Prelude.{
  nat_eq, str_eq, ℕ, Bool, false, ◌||◌, Option, List, Str, bytes, any, ◌==◌, if◌then◌else◌, Result,
}

pub data FsType : Type 0 where
  linux_ext linux_xfs nfs other : FsType

-- `fstype`
unfoldable pub fstype : Str → FsType
fstype tp =
    if tp == bytes "ext2" || tp == bytes "ext3" || tp == bytes "ext4"
    then linux_ext
    else if tp == bytes "xfs"
    then linux_xfs
    else if tp == bytes "nfs" || tp == bytes "nfs4"
    then nfs
    else other

-- The derived `PartialEq` of `FsType`: by the number of the variant.
abbrev pub discriminant : FsType → ℕ
discriminant linux_ext = 0
discriminant linux_xfs = 1
discriminant nfs = 2
discriminant other = 3

abbrev pub fstype_eq : FsType → FsType → Bool
fstype_eq a b = discriminant a == discriminant b

pub record FsQuota : Type 0 where
  pub bytes_used : ℕ
  pub bytes_limit : Option ℕ
  pub files_used : ℕ
  pub files_limit : Option ℕ

-- An `io::Error` is its kind.
pub data FqError : Type 0 where
  permission_denied no_quota : FqError
  io_error : ℕ → FqError
  other_error : FqError

unfoldable pub to_num : FqError → ℕ
to_num permission_denied = 1
to_num no_quota = 2
to_num (io_error _) = 3
to_num other_error = 4

-- `PartialEq for FqError`
unfoldable pub fq_eq : FqError → FqError → Bool
unfolding to_num
fq_eq (io_error e) (io_error o) = e == o
fq_eq (io_error e) permission_denied = false
fq_eq (io_error e) no_quota = false
fq_eq (io_error e) other_error = false
fq_eq permission_denied o = to_num permission_denied == to_num o
fq_eq no_quota o = to_num no_quota == to_num o
fq_eq other_error o = to_num other_error == to_num o

pub record Mtab : Type 0 where
  pub host : Option Str
  pub device : Str
  pub directory : Str
  pub fstype : Str

-- `libc::statvfs`. By statvfs(3), `f_frsize` is the unit of `f_blocks`, `f_bfree` and `f_bavail`.
pub record Statvfs : Type 0 where
  pub f_bsize : ℕ
  pub f_frsize : ℕ
  pub f_blocks : ℕ
  pub f_bfree : ℕ
  pub f_bavail : ℕ
  pub f_files : ℕ
  pub f_ffree : ℕ
  pub f_favail : ℕ

-- What the C functions of the crate return, and store through their pointers.
pub record Counts : Type 0 where
  pub rc : ℕ
  pub bytes_used : ℕ
  pub bytes_limit : ℕ
  pub files_used : ℕ
  pub files_limit : ℕ

-- The operating system, at one time. An error is the kind of an `io::Error`, and a C `int` its bit
-- pattern.
pub record System : Type 0 where
  -- The lines of /etc/mtab, once it is open.
  pub mtab : Result (List (Result Str ℕ)) ℕ
  -- `symlink_metadata` and `metadata`: the device
  pub symlink_dev : Str → Result ℕ ℕ
  pub dev : Str → Result ℕ ℕ
  -- realpath(3) and statvfs(3), on a C string
  pub realpath : Str → Result Str ℕ
  pub statvfs : Str → Result Statvfs ℕ
  pub getuid : ℕ
  -- `fs_quota_linux(device, id)` and `fs_quota_nfs(host, path, version, id)`, for a user
  pub quota_linux : Str → ℕ → Counts
  pub quota_nfs : Str → Str → Str → ℕ → Counts
  -- The kind of `last_os_error`, and that of a `NulError`
  pub last_os_error : ℕ
  pub invalid_input : ℕ
  -- `String::from_utf8_lossy`
  pub lossy : Str → Str

-- `CString::new` fails on such a text.
abbrev pub has_nul : Str → Bool
has_nul = any (λ b. b == 0)
