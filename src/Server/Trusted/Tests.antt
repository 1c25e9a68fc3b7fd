-- ===== src/Server/Trusted/Tests.antt =====
-- A run of the server with one request, and the theorems applied to it.
use webdav_server_rs.Prelude.{
  true, nat_eq, str_eq, ℕ, ◌≡◌, refl, bytes, Str, none, List, [], ok, returned, from_utf8, collect,
  chars, arith,
}
use webdav_server_rs.Cache
use webdav_server_rs.Config.Routes.{build_routes}
use webdav_server_rs.Router.{Router, builder, add, build, matches}
use webdav_server_rs.Unixuser.{by_name}
use webdav_server_rs.Cached.{
  Login, set_pamcache_timeout, set_pwcache_timeout, pam_auth, pam_auth_in, ask_pam, force_pamcache,
  unixuser, unixuser_in, force_pwcache,
}
use webdav_server_rs.Auth.{auth, auth_pam, client_ip}
use webdav_server_rs.Http.{HttpResponse, read_clock}
use webdav_server_rs.Responses.{auth_error, set_server_header, build_error, error}
use webdav_server_rs.Server.{
  State, do_auth, user_param_of, prefix_of, acct, handle, handle_as, serve, run_davhandler,
}
use webdav_server_rs.Server.Route.{goes_on, route_from, route}
use webdav_server_rs.Server.Trusted.{IsMonotone, IsTrusted, configured}
use webdav_server_rs.Server.Trusted.Runs.{Run, idle, served, Run-IsTrusted}
use webdav_server_rs.Sample.{mike, literal, environment, second_time, config, client, request}

program : Unit {0}
unfolding builder route route_from goes_on matches set_pamcache_timeout set_pwcache_timeout
    auth_error error do_auth user_param_of prefix_of build_routes add build from_utf8 collect chars
    handle handle_as serve run_davhandler acct set_server_header build_error auth auth_pam client_ip
    pam_auth pam_auth_in ask_pam force_pamcache unixuser unixuser_in force_pwcache by_name
    read_clock Cache.insert Cache.get Cache.new Cache.with_maxage
program = tt

built :
    (router : Router literal (List Str) Str ℕ) × (build_routes literal (List Str) Str config
      ≡ returned (ok router))
unfolding program
built = (_, refl)

abbrev start : State (List Str)
start = record {
  world = record { statics = configured environment true 120 120; reads = 0 };
  calls = [];
}

ran :
    (s : State (List Str)) × (res : HttpResponse) × (route literal environment second_time config
        client built.0 request start
      ≡ returned (s, res))
unfolding program built
ran = (_, _, refl)

one_request : Run literal environment second_time config built.0 ran.0
one_request = served client request ran.1 (idle 120 120) ran.2

environment-IsMonotone : IsMonotone environment true
environment-IsMonotone n = omega arith

Run-IsTrusted_example : IsTrusted environment true ran.0.world
Run-IsTrusted_example =
    Run-IsTrusted literal environment second_time config built.0 environment-IsMonotone one_request

abbrev login : Login
login = record { service = bytes "other"; user = mike; pass = bytes "secret"; remip = none }
