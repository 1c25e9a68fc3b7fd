-- ===== src/Startup/Steps.antt =====
-- The steps of the start: the two loops that open sockets, and the switch of ids.
use webdav_server_rs.Prelude.{
  nat_eq, ℕ, ◌≡◌, ◌≢◌, refl, sym, ap, ap₂, ◌∙◌, inl, inr, false, any, Bool-cases, Option, none,
  some, List, [], ◌∷◌, map, ok, err, returned, or_return-eq-ok, arith,
}
use webdav_server_rs.Config.{SocketAddr, Server, Config}
use webdav_server_rs.Suid.{Thread, have_suid_privs}
use webdav_server_rs.Suid.Process.{dropped, proc_switch_ugid_lem}
use webdav_server_rs.Suid.Syscalls.{Creds, Kernel, id_none}
use webdav_server_rs.Startup.{
  Host, no_listener, io, bad_tls, not_root, open_servers, open_tls_servers, drop_privileges,
}
use webdav_server_rs.Startup.Sockets.{Socket, listening, make_listener, make_listener-listening}
use webdav_server_rs.Tls.{TlsCrate, tls_config}

module _ {S : Type 0} (E : Type 0) (host : Host S) (c : Creds) where
  pub open_servers-listening :
      (addrs : List SocketAddr) (ss : List Socket)
      → open_servers E host c addrs ≡ returned (ok ss)
      → ss ≡ map (listening c) addrs
  unfolding open_servers
  open_servers-listening [] ss e = ground arith
  open_servers-listening (a ∷ rest) ss e =
      let (s, made, e₁) =
        or_return-eq-ok (returned (make_listener (host.attempt c) c a)) (no_listener a) _ e in
      let (_, _, e₂) = or_return-eq-ok (returned (host.incoming s)) io _ e₁ in
      let (ss', opened, e₃) = or_return-eq-ok (open_servers E host c rest) (λ x. x) _ e₂ in
      let first = make_listener-listening (host.attempt c) c a s (ground arith) in
      let all : s ∷ ss' ≡ ss = ground arith in
      sym all ∙ ap₂ ◌∷◌ first (open_servers-listening rest ss' opened)

  pub open_tls_servers-listening :
      (rustls : TlsCrate) (server : Server) (addrs : List SocketAddr)
      (ss : List (Socket × rustls.ServerConfig))
      → open_tls_servers E host rustls server c addrs ≡ returned (ok ss)
      → map (λ s. s.0) ss ≡ map (listening c) addrs
  unfolding open_tls_servers
  open_tls_servers-listening rustls server [] ss e =
      let none_open : [] ≡ ss = ground arith in ap (map (λ s. s.0)) (sym none_open)
  open_tls_servers-listening rustls server (a ∷ rest) ss e =
      let (s, made, e₁) =
        or_return-eq-ok (returned (make_listener (host.attempt c) c a)) (no_listener a) _ e in
      let (t, _, e₂) = or_return-eq-ok (tls_config rustls server) bad_tls _ e₁ in
      let (ss', opened, e₃) =
        or_return-eq-ok (open_tls_servers E host rustls server c rest) (λ x. x) _ e₂ in
      let first = make_listener-listening (host.attempt c) c a s (ground arith) in
      let all : (s, t) ∷ ss' ≡ ss = ground arith in
      ap (map (λ x. x.0)) (sym all)
      ∙ ap₂ ◌∷◌ first (open_tls_servers-listening rustls server rest ss' opened)

-- The ids in the configuration are not the one that stands for no id.
abbrev pub HasRealIds : Server → Type 0
HasRealIds server = (server.uid ≢ some id_none) × (server.gid ≢ some id_none)

-- The credentials once the privileges are dropped, where the configuration asks for that. They are
-- kept for a location that switches to its users.
abbrev pub ids_after : {S : Type 0} → Config S → Creds → Option ℕ → Option ℕ → Creds
ids_after config c (some uid) (some gid) = dropped uid gid (any (λ l. l.setuid) config.location) c
ids_after config c (some uid) none = c
ids_after config c none gid = c

module _ {S : Type 0} (E : Type 0) (k : Kernel) (config : Config S) where
  pub drop_privileges-ids :
      (t t' : Thread) (uid gid : Option ℕ)
      → config.server.uid ≡ uid
      → config.server.gid ≡ gid
      → uid ≢ some id_none
      → gid ≢ some id_none
      → t.used ≡ false
      → drop_privileges E k config t ≡ returned (ok t')
      → (t' ≡ record t { kernel = ids_after config t.kernel uid gid })
        × ((uid ≢ none) → (gid ≢ none) → t.kernel.euid ≡ 0)
  unfolding drop_privileges have_suid_privs
  drop_privileges-ids t t' none gid u g ru rg fresh e =
      let step : drop_privileges E k config t ≡ returned (ok t) = rw (drop_privileges, u) refl in
      let same = sym step ∙ e in (ground arith, λ h. absurd (h refl))
  drop_privileges-ids t t' (some uid) none u g ru rg fresh e =
      let step : drop_privileges E k config t ≡ returned (ok t) = rw (drop_privileges, u, g) refl in
      let same = sym step ∙ e in (ground arith, λ _ h. absurd (h refl))
  drop_privileges-ids t t' (some uid) (some gid) u g ru rg fresh e =
      let keep = any (λ l. l.setuid) config.location in
      elim (Bool-cases (have_suid_privs t.kernel)) [
        | inl privileged ↦
            let root : t.kernel.euid ≡ 0 = ground arith in
            let switch =
              proc_switch_ugid_lem k uid gid keep t (λ x. ru (ap some x)) (λ x. rg (ap some x))
                fresh root in
            let step : drop_privileges E k config t
                ≡ returned (ok (record t { kernel = dropped uid gid keep t.kernel })) =
              rw (drop_privileges, u, g, privileged, switch) refl in
            let same = sym step ∙ e in (ground arith, λ _ _. root)
        | inr unprivileged ↦
            let step : drop_privileges E k config t ≡ returned (err not_root) =
              rw (drop_privileges, u, g, unprivileged) refl in
            let never = sym step ∙ e in absurd (ground arith)
      ]
