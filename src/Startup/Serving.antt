-- ===== src/Startup/Serving.antt =====
-- After the start, the threads of the server can act for the users of its locations, one operation
-- after the other.
use webdav_server_rs.Prelude.{
  ℕ, ◌≡◌, ◌≢◌, sym, ap, ap₂, ◌∙◌, subst, Bool, true, false, any, Option-cases, inl, inr, Option,
  some, List, [], ◌∷◌, In, here, there, All-In, Str, ok, Outcome, returned, arith,
}
use webdav_server_rs.Config.{Location, Config}
use webdav_server_rs.Config.Check.{MaySwitch}
use webdav_server_rs.Router.Regexes.{RegexCrate}
use webdav_server_rs.Suid.{UgidCreds, Thread, run}
use webdav_server_rs.Suid.Process.{dropped}
use webdav_server_rs.Suid.Synced.{IsSynced, IsTarget, acting}
use webdav_server_rs.Suid.Guard.{guarded, AreTargets, run_restores}
use webdav_server_rs.Suid.Syscalls.{Creds, Kernel, id_none}
use webdav_server_rs.Startup.{Host, Process, read, Started, start}
use webdav_server_rs.Startup.Ready.{with_port-same, start-IsReady}
use webdav_server_rs.Startup.Steps.{HasRealIds, ids_after}
use webdav_server_rs.Tls.{TlsCrate}

any_of_In :
    {S : Type 0} (ls : List (Location S)) (l : Location S)
    → In l ls
    → l.setuid ≡ true
    → any (λ x. x.setuid) ls ≡ true
any_of_In [] l i e = elim i [ ]
any_of_In (x ∷ ls) l (here same) e =
    let first : x.setuid ≡ true = ap (λ (y : Location _). y.setuid) (sym same) ∙ e in ground arith
any_of_In (x ∷ ls) l (there i) e = ground (arith, any_of_In ls l i e)

module _ (lib : RegexCrate) (S Method : Type 0) (host : Host S) (rustls : TlsCrate)
    (k : Kernel) where
  -- Where some location switches to its users, the server has ids, and keeps the saved uid 0.
  start-ids :
      (port : Option Str) (file : Str) (p : Process) (r : Started lib S Method host rustls)
      (l : Location S)
      → p.thread.used ≡ false
      → ((config : Config S) → read host file ≡ ok config → HasRealIds config.server)
      → start lib S Method host rustls k port file p ≡ returned (ok r)
      → In l r.config.location
      → l.setuid ≡ true
      → (uid gid : ℕ) × (r.config.server.uid ≡ some uid)
        × (r.config.server.gid ≡ some gid)
        × (uid ≢ id_none)
        × (gid ≢ id_none)
        × (r.process.thread.kernel ≡ dropped uid gid true p.thread.kernel)
  start-ids port file p r l fresh real e i setuid =
      let ready = start-IsReady lib S Method host rustls k port file p r fresh real e in
      let config = ready.config in
      let (uids, gids, locations) = with_port-same port config r.config ready.port_set in
      let (has_uid, has_gid, _) =
        All-In (MaySwitch config) config.location ready.usable.locations (subst (In l) locations i)
          setuid in
      let keep = any_of_In r.config.location l i setuid in
      let reals = real config ready.was_read in
      elim (Option-cases config.server.uid) [
        | inl missing ↦ absurd (has_uid missing)
        | inr (uid, u) ↦ elim (Option-cases config.server.gid) [
          | inl missing ↦ absurd (has_gid missing)
          | inr (gid, g) ↦ (
            uid,
            gid,
            uids ∙ u,
            gids ∙ g,
            λ n. reals.0 (u ∙ ap some n),
            λ n. reals.1 (g ∙ ap some n),
            ap (λ (t : Thread). t.kernel) ready.dropped_to
                ∙ ap₂ (λ a b. ids_after r.config p.thread.kernel a b) (uids ∙ u) (gids ∙ g)
                ∙ ap (λ (b : Bool). dropped uid gid b p.thread.kernel) keep,
          )
        ]
      ]

-- A file operation that returns, and leaves the ids of its thread alone.
abbrev pub KeepsIds :
    {R : Type 0} → Option UgidCreds → (Thread → Outcome (Thread × R)) → Creds → Type 0
KeepsIds {R} target func c =
    (t : Thread)
    → IsSynced t
    → t.kernel ≡ guarded target c
    → (t' : Thread) × (r : R) × (func t ≡ returned (t', r)) × IsSynced t' × (t'.kernel ≡ t.kernel)

-- The states of a thread of a process with the credentials `c`, between operations under a switch.
pub data Serves (k : Kernel) (R : Type 0) (c : Creds) : Thread → Type 0 where
  ready : (t : Thread) → IsSynced t → t.kernel ≡ c → Serves k R c t
  ran :
      {t t' : Thread} (target : Option UgidCreds) (func : Thread → Outcome (Thread × R)) (r : R)
      → Serves k R c t
      → AreTargets target
      → KeepsIds target func c
      → run k target func t ≡ returned (t', r)
      → Serves k R c t'

module _ (k : Kernel) (R : Type 0) (c : Creds) (own : IsTarget (acting c))
    (saved : c.suid ≡ 0) where
  run_in :
      (t : Thread) (target : Option UgidCreds) (func : Thread → Outcome (Thread × R))
      → IsSynced t
      → t.kernel ≡ c
      → AreTargets target
      → KeepsIds target func c
      → (t₁ t₂ t₃ : Thread) × (r : R) × (t₁.kernel ≡ guarded target c)
        × (func t₁ ≡ returned (t₂, r))
        × (run k target func t ≡ returned (t₃, r))
        × IsSynced t₃
        × (t₃.kernel ≡ c)
  run_in t target func synced same targets keeps =
      let (t₁, t₂, t₃, r, at, body, ran_to, synced₃, back) =
        run_restores k target func t synced targets
          (subst (λ (x : Creds). IsTarget (acting x)) (sym same) own)
          (ap (λ (x : Creds). x.suid) same ∙ saved)
          (λ u su e. keeps u su (e ∙ ap (guarded target) same)) in
      (t₁, t₂, t₃, r, at ∙ ap (guarded target) same, body, ran_to, synced₃, back ∙ same)

  Serves-same : {t : Thread} → Serves k R c t → IsSynced t × (t.kernel ≡ c)
  Serves-same (ready t synced same) = (synced, same)
  Serves-same (ran {t} {t'} target func r before targets keeps e) =
      let (synced, same) = Serves-same before in
      let (t₁, t₂, t₃, r', _, _, ran_to, synced₃, back) =
        run_in t target func synced same targets keeps in
      let end : t₃ ≡ t' = ground arith in
      subst (λ (x : Thread). IsSynced x × (x.kernel ≡ c)) end (synced₃, back)

module _ (lib : RegexCrate) (S Method : Type 0) (host : Host S) (rustls : TlsCrate)
    (k : Kernel) where
  -- A start that succeeds, with a configuration in which some location switches to its users, leaves
  -- a process whose threads can do so: after any sequence of operations under a switch, the next one
  -- always returns, it runs with the target's credentials, and the thread then has the configured
  -- ids again. The operations themselves return and leave the ids alone, and the targets and the
  -- configured ids are ordinary.
  pub start-runs :
      (port : Option Str) (file : Str) (p : Process) (s : Started lib S Method host rustls)
      (l : Location S) {R : Type 0} (t : Thread) (target : Option UgidCreds)
      (func : Thread → Outcome (Thread × R))
      → p.thread.used ≡ false
      → ((config : Config S) → read host file ≡ ok config → HasRealIds config.server)
      → start lib S Method host rustls k port file p ≡ returned (ok s)
      → In l s.config.location
      → l.setuid ≡ true
      → Serves k R s.process.thread.kernel t
      → AreTargets target
      → KeepsIds target func s.process.thread.kernel
      → (uid gid : ℕ) × (s.config.server.uid ≡ some uid)
        × (s.config.server.gid ≡ some gid)
        × ((t₁ t₂ t₃ : Thread) × (r : R) × (t₁.kernel
              ≡ guarded target (dropped uid gid true p.thread.kernel))
            × (func t₁ ≡ returned (t₂, r))
            × (run k target func t ≡ returned (t₃, r))
            × (t₃.kernel ≡ dropped uid gid true p.thread.kernel))
  start-runs port file p s l {R} t target func fresh real e i setuid serves targets keeps =
      let (uid, gid, uids, gids, real_uid, real_gid, kernel) =
        start-ids lib S Method host rustls k port file p s l fresh real e i setuid in
      let c = s.process.thread.kernel in
      let own : IsTarget (acting c) =
        subst (λ (x : Creds). IsTarget (acting x)) (sym kernel)
          (record { uid = real_uid; gid = real_gid; groups = omega arith }) in
      let saved : c.suid ≡ 0 = ap (λ (x : Creds). x.suid) kernel in
      let (synced, same) = Serves-same k R c own saved serves in
      let (t₁, t₂, t₃, r, at, body, ran_to, _, back) =
        run_in k R c own saved t target func synced same targets keeps in
      (
        uid,
        gid,
        uids,
        gids,
        (t₁, t₂, t₃, r, at ∙ ap (guarded target) kernel, body, ran_to, back ∙ kernel),
      )
