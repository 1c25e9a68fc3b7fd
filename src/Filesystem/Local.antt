-- ===== src/Filesystem/Local.antt =====
-- The crate webdav-handler, as userfs.rs and rootfs.rs use it: a parameter.
use webdav_server_rs.Prelude.{◌≡◌, Option, Str, Result, Outcome}
use webdav_server_rs.Filesystem.{LocalFs}
use webdav_server_rs.Quota.Data.{FsQuota}

pub record LocalFsCrate : Type 1 where
  pub DavPath : Type 0
  pub Meta : Type 0
  pub Entries : Type 0
  pub Wanted : Type 0
  pub DavFile : Type 0
  pub Options : Type 0
  pub FsError : Type 0
  -- The files. A method that only reads is a function of them, and another gives them back.
  pub Disk : Type 0
  -- `DavPath::new`, where it succeeds, and `as_bytes`
  pub path_of : Str → Option DavPath
  pub as_bytes : DavPath → Str
  pub not_found : FsError
  pub not_implemented : FsError
  pub general_failure : FsError
  -- The methods of `LocalFs`
  pub metadata : LocalFs → DavPath → Disk → Result Meta FsError
  pub symlink_metadata : LocalFs → DavPath → Disk → Result Meta FsError
  pub read_dir : LocalFs → DavPath → Wanted → Disk → Result Entries FsError
  pub open_file : LocalFs → DavPath → Options → Disk → Disk × Result DavFile FsError
  pub create_dir : LocalFs → DavPath → Disk → Disk × Result (Unit {0}) FsError
  pub remove_dir : LocalFs → DavPath → Disk → Disk × Result (Unit {0}) FsError
  pub remove_file : LocalFs → DavPath → Disk → Disk × Result (Unit {0}) FsError
  pub rename : LocalFs → DavPath → DavPath → Disk → Disk × Result (Unit {0}) FsError
  pub copy : LocalFs → DavPath → DavPath → Disk → Disk × Result (Unit {0}) FsError
  -- `LocalFs::blocking`, on a closure that looks a quota up
  pub blocking :
      LocalFs → (Unit {0} → Outcome (Result FsQuota FsError)) → Outcome (Result FsQuota FsError)

-- `blocking` calls the closure, and gives its result.
abbrev pub CallsClosure : LocalFsCrate → Type 0
CallsClosure c =
    (fs : LocalFs) (f : Unit {0} → Outcome (Result FsQuota c.FsError)) → c.blocking fs f ≡ f tt
