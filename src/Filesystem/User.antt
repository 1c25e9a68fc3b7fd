-- ===== src/Filesystem/User.antt =====
-- userfs.rs: the methods of `UserFs`, but for its quota.
use webdav_server_rs.Prelude.{Result}
use webdav_server_rs.Filesystem.{UserFs}
use webdav_server_rs.Filesystem.Local.{LocalFsCrate}

module _ (c : LocalFsCrate) where
  open c use {DavPath, Meta, Entries, Wanted, DavFile, Options, FsError, Disk}

  unfoldable pub metadata : UserFs → DavPath → Disk → Result Meta FsError
  metadata u path = c.metadata u.fs path

  unfoldable pub symlink_metadata : UserFs → DavPath → Disk → Result Meta FsError
  symlink_metadata u path = c.symlink_metadata u.fs path

  unfoldable pub read_dir : UserFs → DavPath → Wanted → Disk → Result Entries FsError
  read_dir u path meta = c.read_dir u.fs path meta

  unfoldable pub open_file : UserFs → DavPath → Options → Disk → Disk × Result DavFile FsError
  open_file u path options = c.open_file u.fs path options

  unfoldable pub create_dir : UserFs → DavPath → Disk → Disk × Result (Unit {0}) FsError
  create_dir u path = c.create_dir u.fs path

  unfoldable pub remove_dir : UserFs → DavPath → Disk → Disk × Result (Unit {0}) FsError
  remove_dir u path = c.remove_dir u.fs path

  unfoldable pub remove_file : UserFs → DavPath → Disk → Disk × Result (Unit {0}) FsError
  remove_file u path = c.remove_file u.fs path

  unfoldable pub rename : UserFs → DavPath → DavPath → Disk → Disk × Result (Unit {0}) FsError
  rename u from to = c.rename u.fs from to

  unfoldable pub copy : UserFs → DavPath → DavPath → Disk → Disk × Result (Unit {0}) FsError
  copy u from to = c.copy u.fs from to
