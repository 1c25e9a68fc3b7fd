-- ===== src/Startup/Ports.antt =====
-- The option -p of the command line.
use webdav_server_rs.Prelude.{
  ℕ, ◌≡◌, ◌<◌, refl, sym, ap, ◌∙◌, subst, false, some, List, [], ◌∷◌, map, Str,
  parse_number-to_string, to_string, ok, returned, arith,
}
use webdav_server_rs.Config.{SocketAddr, many, to_socket_addrs, Config}
use webdav_server_rs.Router.Regexes.{RegexCrate}
use webdav_server_rs.Suid.Syscalls.{Kernel}
use webdav_server_rs.Startup.{
  Host, Process, localhost, unspecified, socket_addr, read, with_port, Started, start,
}
use webdav_server_rs.Startup.Ready.{start-IsReady}
use webdav_server_rs.Startup.Steps.{HasRealIds}
use webdav_server_rs.Startup.Sockets.{Socket, listening}
use webdav_server_rs.Tls.{TlsCrate}

-- The two addresses for a port.
abbrev pub both : ℕ → List SocketAddr
both n = record { ip = localhost; port = n } ∷ record { ip = unspecified; port = n } ∷ []

with_port-both :
    {S : Type 0} (n : ℕ) (config : Config S)
    → n < 65536
    → with_port (some (to_string n)) config
      ≡ returned (record config { server = record config.server { listen = many (both n) } })
unfolding with_port socket_addr
with_port-both n config small =
    rw (with_port, parse_number-to_string 65536 n small (omega arith)) refl

module _ (lib : RegexCrate) (S Method : Type 0) (host : Host S) (rustls : TlsCrate)
    (k : Kernel) where
  -- With a port on the command line, a start that succeeds serves HTTP on that port of 127.0.0.1 and
  -- of [::], whatever addresses the configuration gives, and nowhere else, and HTTPS on the addresses
  -- of the configuration.
  pub start_on_port :
      (n : ℕ) (file : Str) (p : Process) (r : Started lib S Method host rustls) (config : Config S)
      → n < 65536
      → p.thread.used ≡ false
      → read host file ≡ ok config
      → HasRealIds config.server
      → start lib S Method host rustls k (some (to_string n)) file p ≡ returned (ok r)
      → (map (λ s. s.bound) r.servers
          ≡ some (record { ip = localhost; port = n })
            ∷ some (record { ip = unspecified; port = n })
            ∷ [])
        × (map (λ s. s.0) r.tls_servers
            ≡ map (listening p.thread.kernel) (to_socket_addrs config.server.tls_listen))
  unfolding to_socket_addrs
  start_on_port n file p r config small fresh found real e =
      let port = some (to_string n) in
      let same_config : (c : Config S) → read host file ≡ ok c → config ≡ c =
        λ c h. let both_read = sym found ∙ h in ground arith in
      let ready =
        start-IsReady lib S Method host rustls k port file p r fresh
          (λ c h. subst (λ (x : Config S). HasRealIds x.server) (same_config c h) real) e in
      let final = sym (with_port-both n ready.config small) ∙ ready.port_set in
      let config' : Config S = record ready.config {
        server = record ready.config.server { listen = many (both n) };
      } in
      let set : config' ≡ r.config = ground arith in
      let c = p.thread.kernel in
      (
        ap (map (λ s. s.bound)) ready.listens
            ∙ ap
                (λ (x : Config S).
                  map (λ (s : Socket). s.bound)
                    (map (listening c) (to_socket_addrs x.server.listen)))
                (sym set),
        ready.tls_listens
            ∙ ap (λ (x : Config S). map (listening c) (to_socket_addrs x.server.tls_listen))
                (sym set)
            ∙ ap (λ (x : Config S). map (listening c) (to_socket_addrs x.server.tls_listen))
                (sym (same_config ready.config ready.was_read)),
      )
