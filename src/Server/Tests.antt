-- ===== src/Server/Tests.antt =====
-- A request that is tried at two locations, and the theorems applied to it.
use webdav_server_rs.Http.{HttpRequest, unauthorized}
use webdav_server_rs.Responses.Errors.{IsErrorResponse}
use webdav_server_rs.Server.Denied.{handle_without_credentials}
use webdav_server_rs.Prelude.{
  nat_eq, str_eq, ℕ, ◌≡◌, ◌⊎◌, refl, Option, none, some, List, [], ◌∷◌, map, filter, Str, bytes, ok,
  returned, from_utf8, collect, chars,
}
use webdav_server_rs.Cache
use webdav_server_rs.Config.Routes.{build_routes}
use webdav_server_rs.Router.{Router, add, build}
use webdav_server_rs.Router.Regexes.{Match}
use webdav_server_rs.Router.Matching.{fits, reported}
use webdav_server_rs.Unixuser.{User, by_name}
use webdav_server_rs.Cached.{
  pam_auth, pam_auth_in, ask_pam, force_pamcache, unixuser, unixuser_in, force_pwcache,
}
use webdav_server_rs.Auth.{auth, auth_pam, client_ip}
use webdav_server_rs.Http.{HttpResponse, World}
use webdav_server_rs.Responses.{auth_error, set_server_header, build_error}
use webdav_server_rs.Server.{
  State, do_auth, user_param_of, prefix_of, acct, handle, handle_as, serve, run_davhandler,
}
use webdav_server_rs.Server.Calls.{Calls}
use webdav_server_rs.Server.Calls.Accounts.{IsAccount, acct-IsAccount}
use webdav_server_rs.Server.Calls.Admission.{IsAdmitted, handle-Calls}
use webdav_server_rs.Server.Route.{route}
use webdav_server_rs.Server.Route.Tries.{tries, route-tries}
use webdav_server_rs.Sample.{
  mike, literal, environment, second_time, home, config, client, request, world,
}

program : Unit {0}
unfolding auth_error do_auth user_param_of prefix_of build_routes add build from_utf8 collect chars
    handle handle_as serve run_davhandler acct set_server_header build_error auth auth_pam client_ip
    pam_auth pam_auth_in ask_pam force_pamcache unixuser unixuser_in force_pwcache by_name
    Cache.insert Cache.get Cache.new Cache.with_maxage
program = tt

abbrev start : State (List Str)
start = record { world = world; calls = [] }

abbrev names : List Str
names = bytes "user" ∷ bytes "path" ∷ []

built :
    (router : Router literal (List Str) Str ℕ) × (build_routes literal (List Str) Str config
      ≡ returned (ok router))
unfolding program
built = (_, refl)

route-tries_example :
    route literal environment second_time config client built.0 request start
    ≡ tries literal environment second_time config client
        (bytes "GET")
        (bytes "/x")
        (map (reported literal (List Str) Str ℕ second_time.contains (bytes "/x") names) (
          filter
            (fits literal (List Str) Str ℕ second_time.contains (bytes "/x") (bytes "GET"))
            built.0.routes))
        request
        start
route-tries_example =
    route-tries literal environment second_time config client built.0 request start (bytes "/x")
      (bytes "GET") built.1 refl refl

asked :
    (w : World) × (p : User) × (acct environment second_time config client home
        (some mike)
        none
        world
      ≡ returned (w, ok (some p)))
unfolding program
asked = (_, _, refl)

acct-IsAccount_example :
    (user : Str) × ((some mike ≡ some user)
      ⊎ ((◌≡◌ {A = Option Str} (some mike) none) × (none ≡ some user)))
    × IsAccount environment second_time config client home world asked.0 user asked.1
acct-IsAccount_example =
    acct-IsAccount environment second_time config client home (some mike) none world asked.0 asked.1
      asked.2

abbrev params : List (Option Match)
params = none ∷ some (record { start = 2; end = 2; text = [] }) ∷ []

handled :
    (s : State (List Str)) × (res : HttpResponse) × (handle environment second_time config client
        home
        (bytes "/x")
        request
        (bytes "GET")
        params
        start
      ≡ returned (s, res))
unfolding program
handled = (_, _, refl)

handle-Calls_example :
    Calls
      (IsAdmitted environment second_time config client home
        (bytes "/x")
        request
        (bytes "GET")
        params
        start)
      start
      handled.0
handle-Calls_example =
    handle-Calls environment second_time config client home (bytes "/x") request (bytes "GET")
      params start handled.0 handled.1 handled.2

abbrev anonymous : HttpRequest
anonymous = record request { headers = [] }

no_user : user_param_of none ≡ some none
unfolding program
no_user = refl

denied :
    (s : State (List Str)) × (res : HttpResponse) × (handle environment second_time config client
        home
        (bytes "/x")
        anonymous
        (bytes "GET")
        params
        start
      ≡ returned (s, res))
unfolding program
denied = (_, _, refl)

handle_without_credentials_example :
    (denied.0 ≡ start) × IsErrorResponse environment config unauthorized (some home) denied.1
handle_without_credentials_example =
    handle_without_credentials environment second_time config client home (bytes "/x") anonymous
      (bytes "GET") params start denied.0 denied.1 none none refl refl refl no_user denied.2
