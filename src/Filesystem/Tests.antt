-- ===== src/Filesystem/Tests.antt =====
-- The file systems at concrete inputs.
use webdav_server_rs.Prelude.{
  nat_eq, str_eq, ℕ, ◌≡◌, ◌≢◌, refl, ◌⊎◌, true, false, none, some, List, [], ◌∷◌, In, Str, bytes,
  ok, err, returned, arith,
}
use webdav_server_rs.Cache
use webdav_server_rs.Filesystem.{UserFs, RootFs, user_fs, root_fs}
use webdav_server_rs.Filesystem.Local.{LocalFsCrate, CallsClosure}
use webdav_server_rs.Filesystem.Root.{
  RootFsDirEntry, metadata, read_dir, entry_name, entry_metadata,
}
use webdav_server_rs.Filesystem.Root.Names.{listed_lem}
use webdav_server_rs.Filesystem.Quotas.{Key, key_eq, QuotaCache, qcache, get_quota}
use webdav_server_rs.Cached.{Times}
use webdav_server_rs.Filesystem.Quotas.Measured.{Measured}
use webdav_server_rs.Quota
use webdav_server_rs.Quota.Calls.{get_quota_nfs}
use webdav_server_rs.Quota.Data.{fstype, FsQuota}
use webdav_server_rs.Quota.Entry.{get_mtab_entry}
use webdav_server_rs.Quota.Sample.{host}

-- Paths and metadata are texts, and nothing can be changed.
abbrev local : LocalFsCrate
local = record {
  DavPath = Str;
  Meta = Str;
  Entries = Unit {0};
  Wanted = Unit {0};
  DavFile = Unit {0};
  Options = Unit {0};
  FsError = ℕ;
  Disk = Unit {0};
  path_of = λ s. some s;
  as_bytes = λ p. p;
  not_found = 0;
  not_implemented = 1;
  general_failure = 2;
  metadata = λ _ p _. ok p;
  symlink_metadata = λ _ p _. ok p;
  read_dir = λ _ _ _ _. err 1;
  open_file = λ _ _ _ d. (d, err 1);
  create_dir = λ _ _ d. (d, err 1);
  remove_dir = λ _ _ d. (d, err 1);
  remove_file = λ _ _ d. (d, err 1);
  rename = λ _ _ _ d. (d, err 1);
  copy = λ _ _ _ d. (d, err 1);
  blocking = λ _ f. f tt;
}

local-CallsClosure : CallsClosure local
local-CallsClosure fs f = refl

virtual_root : RootFs
unfolding root_fs
virtual_root = root_fs (bytes "/home") (some (bytes "mike")) none

read_dir_root :
    read_dir local virtual_root (bytes "/") tt tt
    ≡ ok (record { name = bytes "mike"; meta = ok (bytes "/") } ∷ [])
unfolding read_dir virtual_root
read_dir_root = refl

listed_lem_example :
    (entries : List (RootFsDirEntry local)) × (read_dir local virtual_root (bytes "/") tt tt
      ≡ ok entries)
    × (((e : RootFsDirEntry local) × In e entries
          × (entry_name local e ≡ bytes "eve")
          × (metadata local virtual_root (bytes "/eve") tt ≡ returned (entry_metadata local e)))
        ⊎ (((e : RootFsDirEntry local) → In e entries → entry_name local e ≢ bytes "eve")
            × (metadata local virtual_root (bytes "/eve") tt ≡ returned (err 0))))
listed_lem_example =
    listed_lem local (bytes "/") refl virtual_root tt tt (bytes "/eve") (bytes "eve") refl
      (λ e. ground arith)

-- One directory, spelt in two ways.
files : Str → UserFs
unfolding user_fs
files dir = user_fs dir (some (record { uid = 1000; gid = 100; groups = [] })) false false true

-- The readings of the clock in a call that starts then.
abbrev at : ℕ → Times
at n = record { lookup = n; answer = n; expiry = n; stamp = n }

measured :
    (qc : QuotaCache) × (get_quota local (λ _. host) (at 100) (files (bytes "/home")) qcache
      ≡ returned (qc, ok (10, some 100)))
unfolding files get_quota qcache Cache.get Cache.insert get_mtab_entry Quota.user fstype
    get_quota_nfs
measured = (_, refl)

abbrev Says : ℕ → Key → FsQuota → Type 0
Says = Measured local (λ _. host) local-CallsClosure
