-- ===== src/Startup/Tests.antt =====
-- Starts of the server at concrete inputs.
use webdav_server_rs.Prelude.{
  Outcome, Option, nat_eq, str_eq, ℕ, ◌≡◌, refl, true, false, none, some, List, [], ◌∷◌, map, here,
  Str, bytes, to_string, parse_number, from_utf8, collect, chars, subst, ok, err, returned,
  panicked, arith,
}
use webdav_server_rs.Cached.{initial}
use webdav_server_rs.Config.{SocketAddr, many, to_socket_addrs, Config, check}
use webdav_server_rs.Config.Routes.{build_routes}
use webdav_server_rs.Router.{add, build}
use webdav_server_rs.Sample.{literal, home, config}
use webdav_server_rs.Startup.{Host, Process, localhost, unspecified, read, Started, start, not_root}
use webdav_server_rs.Startup.Ports.{start_on_port}
use webdav_server_rs.Startup.Ready.{IsReady, start-IsReady}
use webdav_server_rs.Startup.Steps.{HasRealIds}
use webdav_server_rs.Startup.Sockets.{listening, is_ipv6, make_listener}
use webdav_server_rs.Startup.Serving.{KeepsIds, Serves, ready, ran, start-runs}
use webdav_server_rs.Suid.Guard.{guarded}
use webdav_server_rs.Suid.Sample.{linux}
use webdav_server_rs.Suid.{UgidCreds, Thread, has_thread_switch_ugid, proc_switch_ugid, run}
use webdav_server_rs.Suid.Process.{dropped}
use webdav_server_rs.Suid.Synced.{IsTarget}
use webdav_server_rs.Suid.Syscalls.{Creds}
use webdav_server_rs.Tls.{TlsCrate, tls_config}

abbrev https : SocketAddr
https = record { ip = 0 ∷ 0 ∷ 0 ∷ 0 ∷ []; port = 443 }

-- The configuration of the samples, with HTTPS.
abbrev secure : Config (List Str)
secure = record config {
  server = record config.server {
    tls_listen = many (https ∷ []);
    tls_key = some (bytes "key");
    tls_cert = some (bytes "cert");
  };
}

abbrev host : Host (List Str)
host = record {
  read_to_string = λ _. ok (bytes "[server]");
  toml = λ _. ok secure;
  attempt = λ _ _ _. none;
  runtime = ok tt;
  incoming = λ _. ok tt;
}

-- A file with one key, and one with one certificate.
abbrev rustls : TlsCrate
rustls = record {
  PrivateKey = Str;
  Certificate = Str;
  ServerConfig = Str × Str;
  open_file = λ name. ok name;
  rsa_private_keys = λ s. some (s ∷ []);
  certs = λ s. some (s ∷ []);
  single_cert = λ chain key. elim chain [ [] ↦ err (bytes "no certificate") | c ∷ _ ↦ ok (c, key) ];
}

abbrev root : Creds
root = record { ruid = 0; euid = 0; suid = 0; rgid = 0; egid = 0; sgid = 0; groups = 0 ∷ [] }

abbrev process : Process
process = record {
  thread = record { used = false; current = none; kernel = root };
  statics = initial;
}

program : Unit {0}
unfolding start build_routes add build check has_thread_switch_ugid make_listener is_ipv6 tls_config
    proc_switch_ugid to_string parse_number from_utf8 collect chars
program = tt

started :
    (r : Started literal (List Str) Str host rustls) × (start literal
        (List Str)
        Str
        host
        rustls
        linux
        none
        (bytes "webdav.toml")
        process
      ≡ returned (ok r))
unfolding program
started = (_, refl)

on_port :
    (r : Started literal (List Str) Str host rustls) × (start literal
        (List Str)
        Str
        host
        rustls
        linux
        (some (to_string 8080))
        (bytes "webdav.toml")
        process
      ≡ returned (ok r))
unfolding program
on_port = (_, refl)

-- Who is not root cannot take the ids of the configuration.
not_started :
    start literal
      (List Str)
      Str
      host
      rustls
      linux
      none
      (bytes "webdav.toml")
      (record process { thread = record process.thread { kernel = record root { euid = 1000 } } })
    ≡ returned (err not_root)
unfolding program
not_started = refl

-- A port that is no number ends the program with a panic.
bad_port :
    start literal
      (List Str)
      Str
      host
      rustls
      linux
      (some (bytes "http"))
      (bytes "webdav.toml")
      process
    ≡ panicked
unfolding program
bad_port = refl

ids : HasRealIds secure.server
ids = (λ e. ground arith, λ e. ground arith)

host-HasRealIds :
    (c : Config (List Str)) → read host (bytes "webdav.toml") ≡ ok c → HasRealIds c.server
unfolding read
host-HasRealIds c e =
    let same : secure ≡ c = ground arith in
    subst (λ (x : Config (List Str)). HasRealIds x.server) same ids

secure-read : read host (bytes "webdav.toml") ≡ ok secure
unfolding read
secure-read = refl

start-IsReady_example : IsReady {rustls = rustls} host none (bytes "webdav.toml") process started.0
start-IsReady_example =
    start-IsReady literal (List Str) Str host rustls linux none (bytes "webdav.toml") process
      started.0 refl host-HasRealIds started.1

abbrev eve : UgidCreds
eve = record { uid = 1001; gid = 100; groups = [] }

eve-IsTarget : IsTarget eve
eve-IsTarget = record { uid = omega arith; gid = omega arith; groups = omega arith }

-- A function that looks at the effective uid.
abbrev whoami : Thread → Outcome (Thread × ℕ)
whoami t = returned (t, t.kernel.euid)

abbrev server_ids : Creds
server_ids = dropped 33 33 true root

whoami-KeepsIds : (target : Option UgidCreds) → KeepsIds target whoami server_ids
whoami-KeepsIds target t synced same = (t, t.kernel.euid, refl, synced, refl)

first_run :
    (t : Thread) × (run linux (some eve) whoami started.0.process.thread ≡ returned (t, 1001))
unfolding started program run
first_run = (_, refl)

first_run-Serves : Serves linux ℕ server_ids first_run.0
unfolding started
first_run-Serves =
    ran (some eve) whoami 1001 (ready started.0.process.thread tt refl) eve-IsTarget
      (whoami-KeepsIds (some eve)) first_run.1

start-runs_example :
    (uid gid : ℕ) × (started.0.config.server.uid ≡ some uid)
    × (started.0.config.server.gid ≡ some gid)
    × ((t₁ t₂ t₃ : Thread) × (r : ℕ) × (t₁.kernel ≡ guarded (some eve) (dropped uid gid true root))
        × (whoami t₁ ≡ returned (t₂, r))
        × (run linux (some eve) whoami first_run.0 ≡ returned (t₃, r))
        × (t₃.kernel ≡ dropped uid gid true root))
unfolding started
start-runs_example =
    start-runs literal (List Str) Str host rustls linux none (bytes "webdav.toml") process started.0
      home first_run.0 (some eve) whoami refl host-HasRealIds started.1 (here refl) refl
      first_run-Serves eve-IsTarget (whoami-KeepsIds (some eve))

start_on_port_example :
    (map (λ s. s.bound) on_port.0.servers
      ≡ some (record { ip = localhost; port = 8080 })
        ∷ some (record { ip = unspecified; port = 8080 })
        ∷ [])
    × (map (λ s. s.0) on_port.0.tls_servers ≡ listening root https ∷ [])
unfolding to_socket_addrs
start_on_port_example =
    start_on_port literal (List Str) Str host rustls linux 8080 (bytes "webdav.toml") process
      on_port.0 secure (omega arith) refl secure-read ids on_port.1
