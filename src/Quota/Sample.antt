-- ===== src/Quota/Sample.antt =====
-- A host with two NFS mounts on one device, one inside the other.
use webdav_server_rs.Prelude.{
  nat_eq, str_eq, ℕ, ◌&&◌, some, [], ◌∷◌, Str, bytes, ◌==◌, if◌then◌else◌, ok,
}
use webdav_server_rs.Quota.Data.{Mtab, Statvfs, Counts, System}

abbrev pub volume : Statvfs
volume = record {
  f_bsize = 4096;
  f_frsize = 1024;
  f_blocks = 1000;
  f_bfree = 400;
  f_bavail = 350;
  f_files = 100;
  f_ffree = 60;
  f_favail = 60;
}

-- The C functions answer that there is no quota, but for user 1000 on the server's /home.
abbrev pub answer : Str → ℕ → Counts
answer device uid =
    if (device == bytes "/home") && (uid == 1000)
    then record {
      rc = 0;
      bytes_used = 10;
      bytes_limit = 100;
      files_used = 1;
      files_limit = 0xffffffffffffffff;
    }
    else record { rc = 2; bytes_used = 0; bytes_limit = 0; files_used = 0; files_limit = 0 }

-- Every real path is /home or /home/mike.
abbrev pub host : System
host = record {
  mtab = ok (
      ok (bytes "# mounts")
      ∷ ok (bytes "tmpfs /tmp tmpfs rw")
      ∷ ok (bytes "nfs1:/home /home nfs4 rw")
      ∷ ok (bytes "nfs1:/home/mike /home/mike nfs rw")
      ∷ ok (bytes "nfs2 /opt nfs rw")
      ∷ []);
  symlink_dev = λ _. ok 7;
  dev = λ _. ok 7;
  realpath = λ p. if p == bytes "/home" then ok (bytes "/home") else ok (bytes "/home/mike");
  statvfs = λ _. ok volume;
  getuid = 33;
  quota_linux = answer;
  quota_nfs = λ _ device _ uid. answer device uid;
  last_os_error = 5;
  invalid_input = 20;
  lossy = λ s. s;
}

abbrev pub mike : Mtab
mike = record {
  host = some (bytes "nfs1");
  device = bytes "/home/mike";
  directory = bytes "/home/mike";
  fstype = bytes "nfs";
}

abbrev pub home : Mtab
home = record {
  host = some (bytes "nfs1");
  device = bytes "/home";
  directory = bytes "/home";
  fstype = bytes "nfs4";
}
