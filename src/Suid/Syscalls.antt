-- ===== src/Suid/Syscalls.antt =====
-- The kernel, as suid.rs uses it: the credentials of a thread, and the system calls as a
-- parameter with what setresuid(2), setresgid(2), setreuid(2), setuid(2), setgid(2), seteuid(2)
-- and getgroups(2) document.
use webdav_server_rs.Prelude.{ℕ, ◌≡◌, ◌≢◌, ◌≤◌, ◌⊎◌, Option, none, some, List, length}

pub record Creds : Type 0 where
  pub ruid : ℕ
  pub euid : ℕ
  pub suid : ℕ
  pub rgid : ℕ
  pub egid : ℕ
  pub sgid : ℕ
  pub groups : List ℕ

-- `ID_NONE`, which stands for "leave this id as it is".
abbrev pub id_none : ℕ
id_none = 0xffffffff

abbrev pub ngroups_max : ℕ
ngroups_max = 65536

-- A thread with the effective uid 0 may take any uid, another one only its three uids.
abbrev pub MayTakeUid : ℕ → Creds → Type 0
MayTakeUid u c = (c.euid ≡ 0) ⊎ (u ≡ c.ruid) ⊎ (u ≡ c.euid) ⊎ (u ≡ c.suid)

abbrev pub MayTakeGid : ℕ → Creds → Type 0
MayTakeGid g c = (c.euid ≡ 0) ⊎ (g ≡ c.rgid) ⊎ (g ≡ c.egid) ⊎ (g ≡ c.sgid)

-- `none` stands for a call that fails.
pub record Kernel : Type 0 where
  pub setresuid : ℕ → ℕ → ℕ → Creds → Option Creds
  pub setresgid : ℕ → ℕ → ℕ → Creds → Option Creds
  pub setgroups : List ℕ → Creds → Option Creds
  -- getgroups(0, NULL)
  pub count_groups : Creds → Option ℕ
  -- getgroups(size, list): the result, and the list
  pub list_groups : ℕ → Creds → Option (ℕ × List ℕ)
  pub setuid : ℕ → Creds → Option Creds
  pub setreuid : ℕ → ℕ → Creds → Option Creds
  pub setgid : ℕ → Creds → Option Creds
  pub seteuid : ℕ → Creds → Option Creds
  pub setresuid_allowed :
      (u : ℕ) (c : Creds)
      → u ≢ id_none
      → MayTakeUid u c
      → setresuid id_none u id_none c ≡ some (record c { euid = u })
  pub setresuid_refused :
      (u : ℕ) (c : Creds) → u ≢ id_none → ¬ MayTakeUid u c → setresuid id_none u id_none c ≡ none
  pub setresgid_allowed :
      (g : ℕ) (c : Creds)
      → g ≢ id_none
      → MayTakeGid g c
      → setresgid id_none g id_none c ≡ some (record c { egid = g })
  pub setgroups_allowed :
      (gs : List ℕ) (c : Creds)
      → length gs ≤ ngroups_max
      → c.euid ≡ 0
      → setgroups gs c ≡ some (record c { groups = gs })
  pub count_groups_lem : (c : Creds) → count_groups c ≡ some (length c.groups)
  pub list_groups_lem :
      (c : Creds) → list_groups (length c.groups) c ≡ some (length c.groups, c.groups)
  pub setuid_privileged :
      (u : ℕ) (c : Creds)
      → u ≢ id_none
      → c.euid ≡ 0
      → setuid u c ≡ some (record c { ruid = u; euid = u; suid = u })
  -- A real uid is given, so the saved uid becomes the new effective one.
  pub setreuid_privileged :
      (r u : ℕ) (c : Creds)
      → r ≢ id_none
      → u ≢ id_none
      → c.euid ≡ 0
      → setreuid r u c ≡ some (record c { ruid = r; euid = u; suid = u })
  pub setgid_privileged :
      (g : ℕ) (c : Creds)
      → g ≢ id_none
      → c.euid ≡ 0
      → setgid g c ≡ some (record c { rgid = g; egid = g; sgid = g })
  pub seteuid_privileged :
      (u : ℕ) (c : Creds) → u ≢ id_none → c.euid ≡ 0 → seteuid u c ≡ some (record c { euid = u })
