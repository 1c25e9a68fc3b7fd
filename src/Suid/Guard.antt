-- ===== src/Suid/Guard.antt =====
-- A guard brings the thread back to the credentials that it had before.
use webdav_server_rs.Prelude.{◌≡◌, refl, ◌∙◌, ap, Option, none, some, Outcome, returned}
use webdav_server_rs.Suid.Syscalls.{Creds, Kernel}
use webdav_server_rs.Suid.{UgidCreds, Thread, guard, drop_guard, run}
use webdav_server_rs.Suid.Synced.{IsSynced, IsTarget, acting, switched}
use webdav_server_rs.Suid.Switch.{thread_switch_ugid_lem}

-- The kernel's credentials under a guard.
abbrev pub guarded : Option UgidCreds → Creds → Creds
guarded none c = c
guarded (some x) c = switched x c

abbrev pub AreTargets : Option UgidCreds → Type 0
AreTargets none = Unit
AreTargets (some x) = IsTarget x

module _ (k : Kernel) where
  guard_lem :
      (target : Option UgidCreds) (t : Thread)
      → IsSynced t
      → AreTargets target
      → IsTarget (acting t.kernel)
      → t.kernel.suid ≡ 0
      → (t' : Thread) × (base : Option UgidCreds) × (guard k target t ≡ returned (t', base))
        × IsSynced t'
        × (t'.kernel ≡ guarded target t.kernel)
        × ((t₂ : Thread)
            → IsSynced t₂
            → t₂.kernel ≡ guarded target t.kernel
            → (t₃ : Thread) × (drop_guard k base t₂ ≡ returned t₃)
              × IsSynced t₃
              × (t₃.kernel ≡ t.kernel))
  unfolding guard drop_guard
  guard_lem none t synced target back saved =
      (t, none, refl, synced, refl, λ t₂ synced₂ same. (t₂, refl, synced₂, same))
  guard_lem (some x) t synced target back saved =
      let (t', e, synced', kernel') = thread_switch_ugid_lem k x t synced target saved in
      (
        t',
        some (acting t.kernel),
        rw e refl,
        synced',
        kernel',
        λ t₂ synced₂ same.
            let (t₃, e₃, synced₃, kernel₃) =
              thread_switch_ugid_lem k (acting t.kernel) t₂ synced₂ back
                (ap (λ c. c.suid) same ∙ saved) in
            (t₃, rw e₃ refl, synced₃, kernel₃ ∙ ap (λ c. switched (acting t.kernel) c) same),
      )

  -- A function that runs under a guard runs with the target's credentials, if there is a target,
  -- and with the thread's own otherwise. If it returns without changing them, the whole call
  -- returns its result, and the thread then has the very credentials that it had at the start.
  pub run_restores {ℓ} :
      {R : Type ℓ} (target : Option UgidCreds) (func : Thread → Outcome (Thread × R)) (t : Thread)
      → IsSynced t
      → AreTargets target
      → IsTarget (acting t.kernel)
      → t.kernel.suid ≡ 0
      → ((t₁ : Thread)
          → IsSynced t₁
          → t₁.kernel ≡ guarded target t.kernel
          → (t₂ : Thread) × (r : R) × (func t₁ ≡ returned (t₂, r))
            × IsSynced t₂
            × (t₂.kernel ≡ t₁.kernel))
      → (t₁ t₂ t₃ : Thread) × (r : R) × (t₁.kernel ≡ guarded target t.kernel)
        × (func t₁ ≡ returned (t₂, r))
        × (run k target func t ≡ returned (t₃, r))
        × IsSynced t₃
        × (t₃.kernel ≡ t.kernel)
  unfolding run
  run_restores target func t synced targets back saved body =
      let (t₁, base, e₁, synced₁, kernel₁, leave) = guard_lem target t synced targets back saved in
      let (t₂, r, e₂, synced₂, kernel₂) = body t₁ synced₁ kernel₁ in
      let (t₃, e₃, synced₃, kernel₃) = leave t₂ synced₂ (kernel₂ ∙ kernel₁) in
      (t₁, t₂, t₃, r, kernel₁, e₂, rw (e₁, e₂, e₃) refl, synced₃, kernel₃)
