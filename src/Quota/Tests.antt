-- ===== src/Quota/Tests.antt =====
-- Quotas at concrete inputs: a host with two NFS mounts on one device, one inside the other.
use webdav_server_rs.Prelude.{
  nat_eq, str_eq, ℕ, ◌*◌, ◌<◌, ◌↔◌, ◌≡◌, ◌≢◌, refl, ◌⊎◌, Bool-cases, inl, inr, subst, none, some,
  List, bytes, ◌==◌, Result, ok, err, returned, arith,
}
use webdav_server_rs.Quota.Data.{fstype, FsQuota, FqError, no_quota, Mtab, has_nul}
use webdav_server_rs.Quota.Sample.{volume, host, mike}
use webdav_server_rs.Quota.Calls.{get_quota_nfs}
use webdav_server_rs.Quota.Entry.{components, realpath, get_mtab_entry}
use webdav_server_rs.Quota.Entry.Prefixes.{IsCanonical}
use webdav_server_rs.Quota.Entry.Nearest.{GivesCanonical}
use webdav_server_rs.Quota.Table.{read_mtab}
use webdav_server_rs.Quota.Entry.Choice.{IsOnly, IsNearest, get_mtab_entry_lem}
use webdav_server_rs.Quota.Errors.{check_lem}
use webdav_server_rs.Quota.Usage.{IsSane, system_lem}
use webdav_server_rs.Quota.Totality.{check_returns}
use webdav_server_rs.Quota.{user, system, check}

get_mtab_entry-mike : get_mtab_entry host (bytes "/home/mike") ≡ returned (ok mike)
unfolding get_mtab_entry
get_mtab_entry-mike = refl

check_home :
    check host (bytes "/home") (some 1000)
    ≡ returned (
        ok (record { bytes_used = 10; bytes_limit = some 100; files_used = 1; files_limit = none }))
unfolding check user get_mtab_entry fstype get_quota_nfs
check_home = refl

host-GivesCanonical : GivesCanonical host
unfolding realpath components
host-GivesCanonical d p e = elim (Bool-cases (d == bytes "/home")) [
  | inl outer ↦ let same : bytes "/home" ≡ p = ground arith in subst IsCanonical same refl
  | inr inner ↦ elim (Bool-cases (has_nul d)) [
    | inl bad ↦ absurd (ground arith)
    | inr good ↦ let same : bytes "/home/mike" ≡ p = ground arith in subst IsCanonical same refl
  ]
]

user_mike : user host (bytes "/home/mike") (some 1000) ≡ returned (err no_quota)
unfolding user get_mtab_entry fstype get_quota_nfs
user_mike = refl

abbrev refused : Result FsQuota FqError
refused = err no_quota

check_lem_example :
    ((refused ≡ err no_quota)
      × (check host (bytes "/home/mike") (some 1000) ≡ returned (system host (bytes "/home/mike"))))
    ⊎ ((refused ≢ err no_quota) × (check host (bytes "/home/mike") (some 1000) ≡ returned refused))
check_lem_example = check_lem host (bytes "/home/mike") (some 1000) refused user_mike

check_returns_example :
    (r : Result FsQuota FqError) × (check host (bytes "/home/mike") none ≡ returned r)
check_returns_example = check_returns host (bytes "/home/mike") none

volume-IsSane : IsSane volume
volume-IsSane = record {
  free = omega arith;
  available = omega arith;
  bytes = omega arith;
  blocks = omega arith;
  files_free = omega arith;
  files_available = omega arith;
  files = omega arith;
}

system_lem_example :
    (q : FsQuota) × (system host (bytes "/home/mike") ≡ ok q)
    × (q.bytes_used ≡ 600 * 4096)
    × (q.bytes_limit ≡ some (950 * 4096))
    × (0 < 600 → (q.bytes_used ≡ 600 * 1024) ↔ (◌≡◌ {A = ℕ} 4096 1024))
    × (0 < 600 → (q.bytes_limit ≡ some (950 * 1024)) ↔ (◌≡◌ {A = ℕ} 4096 1024))
    × (q.files_used ≡ 40)
    × (q.files_limit ≡ some 100)
system_lem_example = system_lem host (bytes "/home/mike") volume refl refl volume-IsSane

get_mtab_entry_lem_example :
    (dev : ℕ) × (ms : List Mtab) × (host.symlink_dev (bytes "/home/mike") ≡ ok dev)
    × (read_mtab host ≡ returned (ok ms))
    × (IsOnly host (bytes "/home/mike") dev ms mike
        ⊎ IsNearest host (bytes "/home/mike") dev ms mike)
get_mtab_entry_lem_example =
    get_mtab_entry_lem host (bytes "/home/mike") mike host-GivesCanonical get_mtab_entry-mike
