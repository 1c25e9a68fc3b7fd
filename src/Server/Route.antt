-- ===== src/Server/Route.antt =====
-- main.rs, `Server::route`: the locations that a request is tried at.
pub mod Tries
use webdav_server_rs.Prelude.{
  nat_eq, str_eq, ℕ, Bool, true, false, not, ◌||◌, Option, none, some, or, is_none, List, [], ◌∷◌,
  Str, bytes, get_elem?, ◌==◌, if◌then◌else◌, Outcome, returned, panicked, ◌>>=◌, unwrap,
}
use webdav_server_rs.Config.{SocketAddr, Location, Config}
use webdav_server_rs.Config.Enums.{OnNotfound, continue, return}
use webdav_server_rs.Http.{
  bad_request, not_found, method_not_allowed, HttpRequest, HttpResponse, Environment,
}
use webdav_server_rs.Router.{MatchedRoute, Router, matches}
use webdav_server_rs.Router.Regexes.{RegexCrate}
use webdav_server_rs.Dav.{DavCrate}
use webdav_server_rs.Responses.{clone_httpreq, error}
use webdav_server_rs.Server.{State, answer, handle}

-- Whether the next location is tried after a 404.
unfoldable pub goes_on : Option OnNotfound → Bool
goes_on none = false
goes_on (some continue) = true
goes_on (some return) = false

module _ (lib : RegexCrate) (env : Environment) (dav : DavCrate) (config : Config dav.MethodSet)
    (remote : SocketAddr) where
  open dav use {Method, MethodSet, from_uri, try_from, contains}

  module _ (method : Method) (path : Str) where
    -- The loop of `route`, over the matched routes that are left, with `reqdata`.
    unfoldable pub route_from :
        List (MatchedRoute lib MethodSet Method ℕ)
        → (reqdata : Option HttpRequest) → State MethodSet
        → Outcome (State MethodSet × HttpResponse)
    unfolding clone_httpreq goes_on
    route_from [] reqdata s = answer env dav config remote s (error env config not_found)
    route_from (m ∷ rest) reqdata s = do
      req ← unwrap reqdata
      location ← unwrap (get_elem? config.location m.payload)
      let reqdata' = if goes_on location.on_notfound then some (clone_httpreq req) else none
      (s', res) ← handle env dav config remote location path req method m.params s
      let next = route_from rest reqdata' s'
      if is_none reqdata' || not (res.status == not_found) then returned (s', res) else next

  -- `route`
  unfoldable pub route :
      Router lib MethodSet Method ℕ
      → HttpRequest
      → State MethodSet
      → Outcome (State MethodSet × HttpResponse)
  unfolding route_from
  route router req s = elim (from_uri req.uri) [
    | none ↦ answer env dav config remote s (error env config bad_request)
    | some path ↦ elim (try_from req.method) [
      | none ↦ answer env dav config remote s (error env config method_not_allowed)
      | some method ↦ (do
        matched ←
            matches lib MethodSet Method ℕ contains router path method
              (bytes "user" ∷ bytes "path" ∷ [])
        route_from method path matched (some req) s)
    ]
  ]
