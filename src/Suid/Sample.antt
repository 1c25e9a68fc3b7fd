-- ===== src/Suid/Sample.antt =====
-- A kernel that meets the assumptions.
use webdav_server_rs.Prelude.{
  nat_eq, ℕ, ◌≡◌, ◌≢◌, ◌≤◌, refl, Bool, ◌||◌, Option, none, some, List, length, arith,
  if◌then◌else◌, ◌==◌,
}
use webdav_server_rs.Suid.Syscalls.{Creds, Kernel, MayTakeUid, MayTakeGid, id_none, ngroups_max}

abbrev pub may_take_uid : ℕ → Creds → Bool
may_take_uid u c = c.euid == 0 || u == c.ruid || u == c.euid || u == c.suid

abbrev pub may_take_gid : ℕ → Creds → Bool
may_take_gid g c = c.euid == 0 || g == c.rgid || g == c.egid || g == c.sgid

abbrev pub setresuid : ℕ → ℕ → ℕ → Creds → Option Creds
setresuid r u s c = if may_take_uid u c then some (record c { euid = u }) else none

abbrev pub setresgid : ℕ → ℕ → ℕ → Creds → Option Creds
setresgid r g s c = if may_take_gid g c then some (record c { egid = g }) else none

abbrev pub setgroups : List ℕ → Creds → Option Creds
setgroups gs c = if c.euid == 0 then some (record c { groups = gs }) else none

pub setresuid_allowed :
    (u : ℕ) (c : Creds)
    → u ≢ id_none
    → MayTakeUid u c
    → setresuid id_none u id_none c ≡ some (record c { euid = u })
setresuid_allowed u c real may = ground arith

pub setresuid_refused :
    (u : ℕ) (c : Creds) → u ≢ id_none → ¬ MayTakeUid u c → setresuid id_none u id_none c ≡ none
setresuid_refused u c real may = ground arith

pub setresgid_allowed :
    (g : ℕ) (c : Creds)
    → g ≢ id_none
    → MayTakeGid g c
    → setresgid id_none g id_none c ≡ some (record c { egid = g })
setresgid_allowed g c real may = ground arith

pub setgroups_allowed :
    (gs : List ℕ) (c : Creds)
    → length gs ≤ ngroups_max
    → c.euid ≡ 0
    → setgroups gs c ≡ some (record c { groups = gs })
setgroups_allowed gs c few root = ground arith

-- The process calls, for a process with the effective uid 0; it fails for any other.
abbrev pub privileged : (Creds → Creds) → Creds → Option Creds
privileged f c = if c.euid == 0 then some (f c) else none

pub privileged_lem : (f : Creds → Creds) (c : Creds) → c.euid ≡ 0 → privileged f c ≡ some (f c)
privileged_lem f c root = ground arith

abbrev pub real_uids : ℕ → ℕ → Creds → Creds
real_uids r u c = record c { ruid = r; euid = u; suid = u }

abbrev pub all_gids : ℕ → Creds → Creds
all_gids g c = record c { rgid = g; egid = g; sgid = g }

abbrev pub effective_uid : ℕ → Creds → Creds
effective_uid u c = record c { euid = u }

abbrev pub linux : Kernel
linux = record {
  setresuid = setresuid;
  setresgid = setresgid;
  setgroups = setgroups;
  count_groups = λ c. some (length c.groups);
  list_groups = λ n c. some (length c.groups, c.groups);
  setuid = λ u. privileged (real_uids u u);
  setreuid = λ r u. privileged (real_uids r u);
  setgid = λ g. privileged (all_gids g);
  seteuid = λ u. privileged (effective_uid u);
  setresuid_allowed = setresuid_allowed;
  setresuid_refused = setresuid_refused;
  setresgid_allowed = setresgid_allowed;
  setgroups_allowed = setgroups_allowed;
  count_groups_lem = λ c. refl;
  list_groups_lem = λ c. refl;
  setuid_privileged = λ u c _. privileged_lem (real_uids u u) c;
  setreuid_privileged = λ r u c _ _. privileged_lem (real_uids r u) c;
  setgid_privileged = λ g c _. privileged_lem (all_gids g) c;
  seteuid_privileged = λ u c _. privileged_lem (effective_uid u) c;
}
