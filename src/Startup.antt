-- ===== src/Startup.antt =====
-- main.rs, `main`: from the command line to the listening sockets and the ids of the process. What
-- the operating system and the crate toml answer is a parameter.
pub mod Sockets
pub mod Steps
pub mod Ready
pub mod Ports
pub mod Serving
mod Tests
use webdav_server_rs.Prelude.{
  nat_eq, ℕ, Bool, true, false, not, any, Option, none, some, List, [], ◌∷◌, Str, parse_number,
  if◌then◌else◌, Result, ok, err, Outcome, returned, panicked, ◌>>=◌, unwrap, or_return,
}
use mathlib.Core.Option
use webdav_server_rs.Config.{SocketAddr, many, to_socket_addrs, Server, Config, CheckError, check}
use webdav_server_rs.Config.Routes.{RouteError, build_routes}
use webdav_server_rs.Router.{Router}
use webdav_server_rs.Router.Regexes.{RegexCrate}
use webdav_server_rs.Cached.{Statics, set_pwcache_timeout, set_pamcache_timeout}
use webdav_server_rs.Suid.{Thread, have_suid_privs, has_thread_switch_ugid, proc_switch_ugid}
use webdav_server_rs.Suid.Syscalls.{Creds, Kernel}
use webdav_server_rs.Startup.Sockets.{Socket, Attempt, make_listener}
use webdav_server_rs.Tls.{TlsCrate, TlsError, tls_config}

-- `S` stands for `DavMethodSet`. An error of the system is its kind.
pub record Host (S : Type 0) : Type 0 where
  pub read_to_string : Str → Result Str ℕ
  -- `toml::from_str`; the error is its text
  pub toml : Str → Result (Config S) Str
  pub attempt : Creds → Attempt
  -- `tokio::runtime::Builder::build`
  pub runtime : Result (Unit {0}) ℕ
  -- `AddrIncoming::from_listener`
  pub incoming : Socket → Result (Unit {0}) ℕ

pub data ReadError : Type 0 where
  unreadable : ℕ → ReadError
  invalid_data : Str → ReadError

-- A message and `exit(1)`, or an error that `main` returns.
pub data StartError (E : Type 0) : Type 0 where
  cannot_read : ReadError → StartError E
  check_failed : CheckError → StartError E
  bad_route : RouteError E → StartError E
  no_listener : SocketAddr → ℕ → StartError E
  io : ℕ → StartError E
  bad_tls : TlsError → StartError E
  not_root : StartError E

-- The thread that runs `main`, and the statics of cache.rs.
pub record Process : Type 0 where
  pub thread : Thread
  pub statics : Statics

-- The addresses 127.0.0.1 and [::].
abbrev pub localhost : List ℕ
localhost = 127 ∷ 0 ∷ 0 ∷ 1 ∷ []

abbrev pub unspecified : List ℕ
unspecified = 0 ∷ 0 ∷ 0 ∷ 0 ∷ 0 ∷ 0 ∷ 0 ∷ 0 ∷ 0 ∷ 0 ∷ 0 ∷ 0 ∷ 0 ∷ 0 ∷ 0 ∷ 0 ∷ []

-- `parse::<SocketAddr>()` of one of these, a colon, and a text for the port.
unfoldable pub socket_addr : List ℕ → Str → Option SocketAddr
socket_addr ip port = Option.map (λ n. record { ip = ip; port = n }) (parse_number 65536 port)

module _ {S : Type 0} where
  -- `config::read`
  unfoldable pub read : Host S → Str → Result (Config S) ReadError
  read host file = elim (host.read_to_string file) [
    | err e ↦ err (unreadable e)
    | ok buffer ↦ elim (host.toml buffer) [ ok config ↦ ok config | err e ↦ err (invalid_data e) ]
  ]

  -- The option -p replaces the addresses for HTTP.
  unfoldable pub with_port : Option Str → Config S → Outcome (Config S)
  unfolding socket_addr
  with_port none config = returned config
  with_port (some port) config = do
    v4 ← unwrap (socket_addr localhost port)
    v6 ← unwrap (socket_addr unspecified port)
    returned (record config { server = record config.server { listen = many (v4 ∷ v6 ∷ []) } })

  unfoldable pub set_timeout : Config S → Statics → Statics
  unfolding set_pwcache_timeout
  set_timeout config s = elim config.unix.cache_timeout [
    | some timeout ↦ set_pwcache_timeout timeout s
    | none ↦ s
  ]

  -- `Auth::new`
  unfoldable pub auth_new : Config S → Statics → Statics
  unfolding set_pamcache_timeout
  auth_new config s = elim config.pam.cache_timeout [
    | some timeout ↦ set_pamcache_timeout timeout s
    | none ↦ s
  ]

  module _ (E : Type 0) (host : Host S) where
    -- The loop over the addresses for HTTP.
    unfoldable pub open_servers :
        Creds → List SocketAddr → Outcome (Result (List Socket) (StartError E))
    open_servers c [] = returned (ok [])
    open_servers c (a ∷ rest) =
        or_return (returned (make_listener (host.attempt c) c a)) (no_listener a) λ s.
          or_return (returned (host.incoming s)) io
            λ _. or_return (open_servers c rest) (λ e. e) λ ss. returned (ok (s ∷ ss))

    -- The loop over the addresses for HTTPS.
    unfoldable pub open_tls_servers :
        (rustls : TlsCrate)
        → Server
        → Creds
        → List SocketAddr
        → Outcome (Result (List (Socket × rustls.ServerConfig)) (StartError E))
    open_tls_servers rustls server c [] = returned (ok [])
    open_tls_servers rustls server c (a ∷ rest) =
        or_return (returned (make_listener (host.attempt c) c a)) (no_listener a) λ s.
          or_return (tls_config rustls server) bad_tls λ t.
            or_return (open_tls_servers rustls server c rest) (λ e. e)
              λ ss. returned (ok ((s, t) ∷ ss))

  -- The last step before the servers are spawned.
  unfoldable pub drop_privileges :
      (E : Type 0) → Kernel → Config S → Thread → Outcome (Result Thread (StartError E))
  unfolding have_suid_privs
  drop_privileges E k config t = elim config.server.uid [
    | none ↦ returned (ok t)
    | some uid ↦ elim config.server.gid [
      | none ↦ returned (ok t)
      | some gid ↦ if not (have_suid_privs t.kernel) then returned (err not_root) else (do
        t' ← proc_switch_ugid k uid gid (any (λ l. l.setuid) config.location) t
        returned (ok t'))
    ]
  ]

module _ (lib : RegexCrate) (S Method : Type 0) (host : Host S) where
  abbrev pub Routes : Type 0
  Routes = Router lib S Method ℕ

  -- The configuration, with its routes, and with the port of the command line.
  unfoldable pub configure :
      Option Str → Str → Outcome (Result (Config S × Routes) (StartError lib.Error))
  unfolding read with_port
  configure port file = or_return (returned (read host file)) cannot_read λ config.
      or_return (returned (check has_thread_switch_ugid config)) check_failed λ _.
        or_return (build_routes lib S Method config) bad_route
          λ router. do config' ← with_port port config; returned (ok (config', router))

  pub record Started (rustls : TlsCrate) : Type 0 where
    pub config : Config S
    pub router : Routes
    pub servers : List Socket
    pub tls_servers : List (Socket × rustls.ServerConfig)
    pub process : Process

  -- `main`, from the configuration on.
  unfoldable pub serve :
      (rustls : TlsCrate)
      → Kernel
      → Config S
      → Routes
      → Process
      → Outcome (Result (Started rustls) (StartError lib.Error))
  unfolding set_timeout auth_new open_servers open_tls_servers drop_privileges to_socket_addrs
  serve rustls k config router p =
      let statics = auth_new config (set_timeout config p.statics) in
      let c = p.thread.kernel in
      or_return (returned host.runtime) io λ _.
        or_return (open_servers lib.Error host c (to_socket_addrs config.server.listen)) (λ e. e)
          λ servers.
            or_return
              (open_tls_servers lib.Error host rustls config.server c
                (to_socket_addrs config.server.tls_listen))
              (λ e. e)
              λ tls_servers.
                or_return (drop_privileges lib.Error k config p.thread) (λ e. e)
                  λ thread. returned (
                    ok (record {
                      config = config;
                      router = router;
                      servers = servers;
                      tls_servers = tls_servers;
                      process = record { thread = thread; statics = statics };
                    }))

  -- `main`
  unfoldable pub start :
      (rustls : TlsCrate)
      → Kernel
      → (port : Option Str) → (file : Str) → Process
      → Outcome (Result (Started rustls) (StartError lib.Error))
  unfolding configure serve
  start rustls k port file p =
      or_return (configure port file) (λ e. e) λ ready. serve rustls k ready.0 ready.1 p
