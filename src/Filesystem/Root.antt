-- ===== src/Filesystem/Root.antt =====
-- rootfs.rs: the methods of `RootFs`, and the entries that it lists.
pub mod Names
use webdav_server_rs.Prelude.{
  nat_eq, str_eq, ℕ, Bool, true, not, ◌==◌, if◌then◌else◌, Option, none, some, List, [], ◌∷◌, Str,
  bytes, Result, ok, err, Outcome, returned, panicked, ◌>>=◌, unwrap,
}
use webdav_server_rs.Filesystem.{RootFs}
use webdav_server_rs.Filesystem.Local.{LocalFsCrate}
use webdav_server_rs.Filesystem.User
use webdav_server_rs.Filesystem.Quotas.{QuotaCache}
use webdav_server_rs.Cached.{Times}
use webdav_server_rs.Filesystem.Quotas
use webdav_server_rs.Quota.Data.{System}

-- `&b[1..]`, which panics on no bytes.
abbrev pub rest_of : Str → Outcome Str
rest_of [] = panicked
rest_of (_ ∷ s) = returned s

module _ (c : LocalFsCrate) where
  open c use {DavPath, Meta, Wanted, DavFile, Options, FsError, Disk}

  pub record RootFsDirEntry : Type 0 where
    pub meta : Result Meta FsError
    pub name : Str

  -- The iterator `RootFsReadDir` is the list of the entries to come.
  unfoldable pub next : List RootFsDirEntry → Option RootFsDirEntry × List RootFsDirEntry
  next [] = (none, [])
  next (e ∷ es) = (some e, es)

  unfoldable pub metadata_of_root : RootFs → Disk → Outcome (Result Meta FsError)
  unfolding User.metadata
  metadata_of_root r disk = do
    path ← unwrap (c.path_of (bytes "/"))
    returned (User.metadata c r.fs path disk)

  unfoldable pub metadata : RootFs → DavPath → Disk → Outcome (Result Meta FsError)
  unfolding metadata_of_root
  metadata r path disk =
      let b = c.as_bytes path in
      if b == bytes "/" then metadata_of_root r disk else (do
        name ← rest_of b
        if name == r.user then metadata_of_root r disk else returned (err c.not_found))

  unfoldable pub read_dir : RootFs → DavPath → Wanted → Disk → Result (List RootFsDirEntry) FsError
  unfolding User.metadata
  read_dir r path _ disk = ok (
      if not (r.user == [])
      then record { name = r.user; meta = User.metadata c r.fs path disk } ∷ []
      else [])

  unfoldable pub open_file : RootFs → DavPath → Options → Result DavFile FsError
  open_file r path options = err c.not_implemented

  unfoldable pub get_quota :
      (ℕ → System)
      → Times
      → RootFs
      → QuotaCache
      → Outcome (QuotaCache × Result (ℕ × Option ℕ) FsError)
  unfolding Quotas.get_quota
  get_quota sys t r = Quotas.get_quota c sys t r.fs

  -- The methods of an entry.
  unfoldable pub entry_metadata : RootFsDirEntry → Result Meta FsError
  entry_metadata e = e.meta

  unfoldable pub entry_name : RootFsDirEntry → Str
  entry_name e = e.name

  unfoldable pub entry_is_dir : RootFsDirEntry → Result Bool FsError
  entry_is_dir e = ok true
