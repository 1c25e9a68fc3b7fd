-- ===== src/Server/Route/Tries.antt =====
-- The loop of `route`, without the option in which it keeps the request.
use webdav_server_rs.Prelude.{
  nat_eq, ℕ, ◌≡◌, refl, ap, ◌∙◌, map, filter, ok, Bool, true, false, Bool-cases, inl, inr, some,
  List, [], ◌∷◌, Str, bytes, get_elem?, ◌==◌, ◌&&◌, if◌then◌else◌, Outcome, returned, ◌>>=◌,
  >>=-cong, not, unwrap,
}
use webdav_server_rs.Config.{SocketAddr, Config}
use webdav_server_rs.Config.Routes.{build_routes}
use webdav_server_rs.Config.Routes.Order.{build_routes-build}
use webdav_server_rs.Router.Matching.{fits, reported, matches-build}
use webdav_server_rs.Http.{not_found, HttpRequest, HttpResponse, Environment}
use webdav_server_rs.Router.{MatchedRoute, Router}
use webdav_server_rs.Router.Regexes.{RegexCrate}
use webdav_server_rs.Dav.{DavCrate}
use webdav_server_rs.Responses.{clone_httpreq, error}
use webdav_server_rs.Server.{State, answer, handle}
use webdav_server_rs.Server.Route.{goes_on, route_from, route}

stop-flip {ℓ} :
    {A : Type ℓ} (b : Bool) (x y z : A) → x ≡ y → (if not b then z else x) ≡ (if b then y else z)
stop-flip true x y z h = h
stop-flip false x y z h = refl

module _ (lib : RegexCrate) (env : Environment) (dav : DavCrate) (config : Config dav.MethodSet)
    (remote : SocketAddr) (method : dav.Method) (path : Str) where
  -- One location after the other, until one that does not go on or that answers with another
  -- status than 404. All but the first get the request with an empty body.
  pub tries :
      List (MatchedRoute lib dav.MethodSet dav.Method ℕ)
      → HttpRequest
      → State dav.MethodSet
      → Outcome (State dav.MethodSet × HttpResponse)
  tries [] req s = answer env dav config remote s (error env config not_found)
  tries (m ∷ rest) req s = do
    location ← unwrap (get_elem? config.location m.payload)
    (s', res) ← handle env dav config remote location path req method m.params s
    let later = tries rest (clone_httpreq req) s'
    if goes_on location.on_notfound && res.status == not_found then later else returned (s', res)

  -- The loop never finds the option empty: it does what the locations in order do.
  route_from-tries :
      (ms : List (MatchedRoute lib dav.MethodSet dav.Method ℕ)) (req : HttpRequest)
      (s : State dav.MethodSet)
      → route_from lib env dav config remote method path ms (some req) s ≡ tries ms req s
  unfolding route_from tries
  route_from-tries [] req s = refl
  route_from-tries (m ∷ rest) req s =
      >>=-cong (unwrap (get_elem? config.location m.payload)) (λ location.
        >>=-cong (handle env dav config remote location path req method m.params s) (λ (s', res).
          elim (Bool-cases (goes_on location.on_notfound)) [
            | inl more ↦ rw more (
                stop-flip (res.status == not_found) _ _ _
                  (route_from-tries rest (clone_httpreq req) s'))
            | inr last ↦ rw last refl
          ]))

-- For a router of `build_routes`, a request whose URI and method are valid is tried at the routes
-- that match its path and that its method may use: in the order of the router, and with the request
-- itself at the first one. The loop never panics for want of a request.
pub route-tries :
    (lib : RegexCrate) (env : Environment) (dav : DavCrate) (config : Config dav.MethodSet)
    (remote : SocketAddr) (router : Router lib dav.MethodSet dav.Method ℕ) (req : HttpRequest)
    (s : State dav.MethodSet) (path : Str) (method : dav.Method)
    → build_routes lib dav.MethodSet dav.Method config ≡ returned (ok router)
    → dav.from_uri req.uri ≡ some path
    → dav.try_from req.method ≡ some method
    → route lib env dav config remote router req s
      ≡ tries lib env dav config remote method path
          (map
            (reported lib dav.MethodSet dav.Method ℕ dav.contains path
              (bytes "user" ∷ bytes "path" ∷ []))
            (filter (fits lib dav.MethodSet dav.Method ℕ dav.contains path method) router.routes))
          req
          s
unfolding route
route-tries lib env dav config remote router req s path method built at_path by_method =
    let names = bytes "user" ∷ bytes "path" ∷ [] in
    let (b, b', made, same) = build_routes-build lib dav.MethodSet dav.Method config router built in
    let found =
      matches-build lib dav.MethodSet dav.Method ℕ dav.contains b b' router path method names
        made in
    let later : _ ≡ _ =
      route_from-tries lib env dav config remote method path
        (map (reported lib dav.MethodSet dav.Method ℕ dav.contains path names)
          (filter (fits lib dav.MethodSet dav.Method ℕ dav.contains path method) b.routes))
        req s in
    rw (route, at_path, by_method, found)
      (later
        ∙ ap
            (λ rs.
              tries lib env dav config remote method path
                (map (reported lib dav.MethodSet dav.Method ℕ dav.contains path names)
                  (filter (fits lib dav.MethodSet dav.Method ℕ dav.contains path method) rs))
                req s)
            same)
