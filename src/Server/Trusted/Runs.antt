-- ===== src/Server/Trusted/Runs.antt =====
-- Runs of the server: one request after the other, from the start.
use webdav_server_rs.Prelude.{ℕ, ◌≡◌, [], returned}
use webdav_server_rs.Config.{SocketAddr, Config}
use webdav_server_rs.Http.{HttpRequest, HttpResponse, Environment}
use webdav_server_rs.Router.{Router}
use webdav_server_rs.Router.Regexes.{RegexCrate}
use webdav_server_rs.Dav.{DavCrate}
use webdav_server_rs.Server.{State}
use webdav_server_rs.Server.Route.{route}
use webdav_server_rs.Server.Trusted.{IsMonotone, IsTrusted, configured, configured-IsTrusted}
use webdav_server_rs.Server.Trusted.Requests.{route-Trusted}

module _ (lib : RegexCrate) (env : Environment) (dav : DavCrate) (config : Config dav.MethodSet)
    (router : Router lib dav.MethodSet dav.Method ℕ) where
  -- The states that the server can be in between two requests.
  pub data Run : State dav.MethodSet → Type 0 where
    idle :
        (pw_secs pam_secs : ℕ)
        → Run (record {
          world = record {
            statics = configured env config.unix.aux_groups pw_secs pam_secs;
            reads = 0;
          };
          calls = [];
        })
    served :
        {s s' : State dav.MethodSet} (remote : SocketAddr) (req : HttpRequest) (res : HttpResponse)
        → Run s
        → route lib env dav config remote router req s ≡ returned (s', res)
        → Run s'

  -- If the clock does not go back, then after any sequence of requests both caches hold only what
  -- is genuine: logins that PAM accepted, and accounts that the database gave.
  pub Run-IsTrusted :
      {s : State dav.MethodSet}
      → IsMonotone env config.unix.aux_groups
      → Run s
      → IsTrusted env config.unix.aux_groups s.world
  Run-IsTrusted mono (idle pw_secs pam_secs) =
      configured-IsTrusted env config.unix.aux_groups pw_secs pam_secs
  Run-IsTrusted mono (served {s} {s'} remote req res run e) =
      route-Trusted env dav config mono remote lib router req s s' res (Run-IsTrusted mono run) e
