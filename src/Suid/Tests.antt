-- ===== src/Suid/Tests.antt =====
-- Runs on a concrete kernel, and the theorems applied to them.
use webdav_server_rs.Prelude.{
  nat_eq, ℕ, ◌≡◌, refl, Bool, true, false, inl, none, some, [], ◌∷◌, Outcome, returned, panicked,
  arith,
}
use webdav_server_rs.Suid.Syscalls.{Creds}
use webdav_server_rs.Suid.Sample.{linux}
use webdav_server_rs.Suid.{UgidCreds, Thread, thread_switch_ugid, run, proc_switch_ugid}
use webdav_server_rs.Suid.Synced.{IsSynced, IsTarget, acting, switched}
use webdav_server_rs.Suid.Switch.{thread_switch_ugid_lem}
use webdav_server_rs.Suid.Guard.{run_restores}
use webdav_server_rs.Suid.Process.{
  dropped, proc_switch_ugid_lem, proc_switch-thread_switch, thread_switch_dropped,
}

program : Unit {0}
unfolding run proc_switch_ugid
program = tt

abbrev root_creds : Creds
root_creds = record { ruid = 0; euid = 0; suid = 0; rgid = 0; egid = 0; sgid = 0; groups = 0 ∷ [] }

-- The process at its start, and after it took the uid and the gid 33.
abbrev start : Thread
start = record { used = false; current = none; kernel = root_creds }

abbrev served : Bool → Thread
served keep = record start { kernel = dropped 33 33 keep root_creds }

abbrev mike : UgidCreds
mike = record { uid = 1000; gid = 100; groups = 4 ∷ 27 ∷ [] }

mike-IsTarget : IsTarget mike
mike-IsTarget = record { uid = omega arith; gid = omega arith; groups = omega arith }

base-IsTarget : IsTarget (acting (served true).kernel)
base-IsTarget = record { uid = omega arith; gid = omega arith; groups = omega arith }

-- Where the thread is while it acts for the user.
abbrev switched_thread : Thread
switched_thread = record {
  used = true;
  current = some (record { ruid = 33; euid = 1000; rgid = 33; egid = 100; groups = 4 ∷ 27 ∷ [] });
  kernel = switched mike (served true).kernel;
}

switch_ran :
    thread_switch_ugid linux mike (served true)
    ≡ returned (switched_thread, acting (served true).kernel)
unfolding program
switch_ran = refl

thread_switch_ugid_lem_example :
    (t' : Thread) × (thread_switch_ugid linux mike (served true)
      ≡ returned (t', acting (served true).kernel))
    × IsSynced t'
    × (t'.kernel ≡ switched mike (served true).kernel)
thread_switch_ugid_lem_example =
    thread_switch_ugid_lem linux mike (served true) tt mike-IsTarget refl

-- A function that looks at the effective uid.
abbrev whoami : Thread → Outcome (Thread × ℕ)
whoami t = returned (t, t.kernel.euid)

run_restores_example :
    (t₁ t₂ t₃ : Thread) × (r : ℕ) × (t₁.kernel ≡ switched mike (served true).kernel)
    × (whoami t₁ ≡ returned (t₂, r))
    × (run linux (some mike) whoami (served true) ≡ returned (t₃, r))
    × IsSynced t₃
    × (t₃.kernel ≡ (served true).kernel)
run_restores_example =
    run_restores linux (some mike) whoami (served true) tt mike-IsTarget base-IsTarget refl
      (λ t₁ synced same. (t₁, t₁.kernel.euid, refl, synced, refl))

proc_switch_ugid_lem_example : proc_switch_ugid linux 33 33 true start ≡ returned (served true)
proc_switch_ugid_lem_example =
    proc_switch_ugid_lem linux 33 33 true start (omega arith) (omega arith) refl refl

proc_switch-thread_switch_example : proc_switch_ugid linux 33 33 true switched_thread ≡ panicked
proc_switch-thread_switch_example =
    proc_switch-thread_switch linux mike (served true) switched_thread (acting (served true).kernel)
      33 33 true (inl refl) switch_ran

thread_switch_dropped_example : thread_switch_ugid linux mike (served false) ≡ panicked
thread_switch_dropped_example =
    thread_switch_dropped linux mike 33 33 root_creds (served false) (omega arith) (omega arith) tt
      refl
