-- ===== src/Filesystem.antt =====
-- userfs.rs and rootfs.rs: the file systems of a request. `LocalFs` is of the crate webdav-handler:
-- the model keeps what it is made from.
pub mod Local
pub mod User
pub mod Root
pub mod Quotas
mod Tests
use webdav_server_rs.Prelude.{ℕ, Bool, true, false, Option, unwrap_or, [], Str}
use mathlib.Core.Option
use webdav_server_rs.Suid.{UgidCreds}

-- The arguments of `LocalFs::new_with_fs_access_guard`. The guard is that of a `UgidSwitch`, which
-- its target stands for.
pub record LocalFs : Type 0 where
  pub dir : Str
  pub public : Bool
  pub case_insensitive : Bool
  pub macos : Bool
  pub switch : Option UgidCreds

pub record UserFs : Type 0 where
  pub fs : LocalFs
  pub basedir : Str
  pub uid : ℕ

pub record RootFs : Type 0 where
  pub user : Str
  pub fs : UserFs

-- `UserFs::new`
unfoldable pub user_fs : Str → Option UgidCreds → (public case_insensitive macos : Bool) → UserFs
user_fs dir target_creds public case_insensitive macos = record {
  fs = record {
    dir = dir;
    public = public;
    case_insensitive = case_insensitive;
    macos = macos;
    switch = target_creds;
  };
  basedir = dir;
  uid = unwrap_or (Option.map (λ ugid. ugid.uid) target_creds) 0;
}

-- `RootFs::new`
unfoldable pub root_fs : Str → Option Str → Option UgidCreds → RootFs
unfolding user_fs
root_fs dir user creds = record {
  user = unwrap_or user [];
  fs = user_fs dir creds false false true;
}

-- `Box<dyn DavFileSystem>`
pub data DavFileSystem : Type 0 where
  virtual_root : RootFs → DavFileSystem
  user_files : UserFs → DavFileSystem

-- The user's file system, or that beneath the virtual root.
unfoldable pub files_of : DavFileSystem → UserFs
files_of (virtual_root r) = r.fs
files_of (user_files u) = u
