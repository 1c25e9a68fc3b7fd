-- ===== src/Startup/Ready.antt =====
-- What a start of the server that succeeds has done: the sockets are those of the configuration and
-- belong to the user that the process was started as, and only then are the privileges dropped.
use webdav_server_rs.Prelude.{
  nat_eq, ◌≡◌, ◌≢◌, refl, sym, ap, ◌∙◌, subst, false, Option, none, some, List, map, Str, ok,
  returned, >>=-eq-returned, or_return-eq-ok, arith,
}
use webdav_server_rs.Config.{to_socket_addrs, Config, check}
use webdav_server_rs.Config.Check.{IsUsable, check_iff}
use webdav_server_rs.Config.Routes.{build_routes}
use webdav_server_rs.Router.Regexes.{RegexCrate}
use webdav_server_rs.Suid.{Thread, has_thread_switch_ugid}
use webdav_server_rs.Suid.Syscalls.{Kernel}
use webdav_server_rs.Startup.{
  Host, cannot_read, check_failed, bad_route, io, Process, read, with_port, set_timeout, auth_new,
  open_servers, open_tls_servers, drop_privileges, Routes, configure, Started, serve, start,
}
use webdav_server_rs.Startup.Sockets.{Socket, listening}
use webdav_server_rs.Tls.{TlsCrate}
use webdav_server_rs.Startup.Steps.{
  HasRealIds, ids_after, open_servers-listening, open_tls_servers-listening, drop_privileges-ids,
}

-- A start that has done what the configuration of the file asks for.
pub record IsReady {S Method : Type 0} {lib : RegexCrate} {rustls : TlsCrate} (host : Host S)
    (port : Option Str) (file : Str) (p : Process) (r : Started lib S Method host rustls)
    : Type 0 where
  -- The configuration is that of the file, but for the port; it is usable, and its routes compile.
  pub config : Config S
  pub was_read : read host file ≡ ok config
  pub usable : IsUsable config
  pub routes : build_routes lib S Method config ≡ returned (ok r.router)
  pub port_set : with_port port config ≡ returned r.config
  -- The sockets listen on its addresses. They were opened before the privileges were dropped.
  pub listens : r.servers ≡ map (listening p.thread.kernel) (to_socket_addrs r.config.server.listen)
  pub tls_listens :
      map (λ s. s.0) r.tls_servers
      ≡ map (listening p.thread.kernel) (to_socket_addrs r.config.server.tls_listen)
  -- The process has its ids, and had the privileges to take them.
  pub dropped_to : r.process.thread ≡ record p.thread {
    kernel = ids_after r.config p.thread.kernel r.config.server.uid r.config.server.gid;
  }
  pub was_root : r.config.server.uid ≢ none → r.config.server.gid ≢ none → p.thread.kernel.euid ≡ 0

pub with_port-same :
    {S : Type 0} (port : Option Str) (config config' : Config S)
    → with_port port config ≡ returned config'
    → (config'.server.uid ≡ config.server.uid)
      × (config'.server.gid ≡ config.server.gid)
      × (config'.location ≡ config.location)
unfolding with_port
with_port-same none config config' e = (ground arith, ground arith, ground arith)
with_port-same (some port) config config' e = (ground arith, ground arith, ground arith)

module _ (lib : RegexCrate) (S Method : Type 0) (host : Host S) (rustls : TlsCrate)
    (k : Kernel) where
  configure-inversion :
      (port : Option Str) (file : Str) (config' : Config S) (router : Routes lib S Method host)
      → configure lib S Method host port file ≡ returned (ok (config', router))
      → (config : Config S) × (read host file ≡ ok config)
        × IsUsable config
        × (build_routes lib S Method config ≡ returned (ok router))
        × (with_port port config ≡ returned config')
  unfolding configure has_thread_switch_ugid
  configure-inversion port file config' router e =
      let (config, found, e₁) = or_return-eq-ok (returned (read host file)) cannot_read _ e in
      let (_, checked, e₂) =
        or_return-eq-ok (returned (check has_thread_switch_ugid config)) check_failed _ e₁ in
      let (router', built, e₃) =
        or_return-eq-ok (build_routes lib S Method config) bad_route _ e₂ in
      let (config'', set, e₄) = >>=-eq-returned (with_port port config) _ e₃ in
      let same : router' ≡ router = ground arith in
      let same' : config'' ≡ config' = ground arith in
      (
        config,
        ground arith,
        (check_iff config).0 (ground arith),
        built ∙ ap (λ x. returned (ok x)) same,
        set ∙ ap returned same',
      )

  serve-inversion :
      (config : Config S) (router : Routes lib S Method host) (p : Process)
      (r : Started lib S Method host rustls)
      → serve lib S Method host rustls k config router p ≡ returned (ok r)
      → (ss : List Socket) × (ts : List (Socket × rustls.ServerConfig)) × (t : Thread)
        × (open_servers lib.Error host p.thread.kernel (to_socket_addrs config.server.listen)
            ≡ returned (ok ss))
        × (open_tls_servers lib.Error host rustls config.server p.thread.kernel
              (to_socket_addrs config.server.tls_listen)
            ≡ returned (ok ts))
        × (drop_privileges lib.Error k config p.thread ≡ returned (ok t))
        × (record {
          config = config;
          router = router;
          servers = ss;
          tls_servers = ts;
          process = record { thread = t; statics = auth_new config (set_timeout config p.statics) };
        }
            ≡ r)
  unfolding serve
  serve-inversion config router p r e =
      let c = p.thread.kernel in
      let (_, _, e₁) = or_return-eq-ok (returned host.runtime) io _ e in
      let (ss, opened, e₂) =
        or_return-eq-ok (open_servers lib.Error host c (to_socket_addrs config.server.listen))
          (λ x. x) _ e₁ in
      let (ts, tls_opened, e₃) =
        or_return-eq-ok
          (open_tls_servers lib.Error host rustls config.server c
            (to_socket_addrs config.server.tls_listen))
          (λ x. x) _ e₂ in
      let (t, ran, e₄) =
        or_return-eq-ok (drop_privileges lib.Error k config p.thread) (λ x. x) _ e₃ in
      (ss, ts, t, opened, tls_opened, ran, ground arith)

  serve-IsReady :
      (port : Option Str) (file : Str) (p : Process) (config config' : Config S)
      (router : Routes lib S Method host) (r : Started lib S Method host rustls)
      → p.thread.used ≡ false
      → HasRealIds config.server
      → read host file ≡ ok config
      → IsUsable config
      → build_routes lib S Method config ≡ returned (ok router)
      → with_port port config ≡ returned config'
      → serve lib S Method host rustls k config' router p ≡ returned (ok r)
      → IsReady host port file p r
  serve-IsReady port file p config config' router r fresh real was_read usable routes port_set e =
      let (ss, ts, t, opened, tls_opened, ran, same) = serve-inversion config' router p r e in
      let (uids, gids, _) = with_port-same port config config' port_set in
      let (thread, root) =
        drop_privileges-ids lib.Error k config' p.thread t config'.server.uid config'.server.gid
          refl refl (λ x. real.0 (sym uids ∙ x)) (λ x. real.1 (sym gids ∙ x)) fresh ran in
      subst (IsReady host port file p) same (record {
        config = config;
        was_read = was_read;
        usable = usable;
        routes = routes;
        port_set = port_set;
        listens =
            open_servers-listening lib.Error host p.thread.kernel
              (to_socket_addrs config'.server.listen) ss opened;
        tls_listens =
            open_tls_servers-listening lib.Error host p.thread.kernel rustls config'.server
              (to_socket_addrs config'.server.tls_listen) ts tls_opened;
        dropped_to = thread;
        was_root = root;
      })

  -- A start that succeeds has read a usable configuration, has built its routes, and listens on
  -- exactly its addresses, with sockets that were opened with the credentials of the start. If a uid
  -- and a gid are configured, it was started as root, and the process has these ids afterwards; the
  -- saved uid is then 0 if some location switches to its users, and the uid otherwise. Without them
  -- it keeps its credentials. No thread has switched before, and the ids are ordinary.
  pub start-IsReady :
      (port : Option Str) (file : Str) (p : Process) (r : Started lib S Method host rustls)
      → p.thread.used ≡ false
      → ((config : Config S) → read host file ≡ ok config → HasRealIds config.server)
      → start lib S Method host rustls k port file p ≡ returned (ok r)
      → IsReady host port file p r
  unfolding start
  start-IsReady port file p r fresh real e =
      let ((config', router), configured, served) =
        or_return-eq-ok (configure lib S Method host port file) (λ x. x) _ e in
      let (config, was_read, usable, routes, port_set) =
        configure-inversion port file config' router configured in
      serve-IsReady port file p config config' router r fresh (real config was_read) was_read usable
        routes port_set served
