-- ===== src/Server/Denied.antt =====
-- A request without credentials, at a location that wants them.
use webdav_server_rs.Prelude.{
  nat_eq, ◌≡◌, refl, ap, ◌∙◌, true, Option, none, some, List, Str, get_elem?, err, returned,
  >>=-eq-returned, unwrap, subst, arith,
}
use webdav_server_rs.Config.{SocketAddr, Location, Config}
use webdav_server_rs.Config.Enums.{Auth}
use webdav_server_rs.Http.{unauthorized, HttpRequest, HttpResponse, Environment, World}
use webdav_server_rs.Auth.{auth}
use webdav_server_rs.Router.Regexes.{Match}
use webdav_server_rs.Dav.{DavCrate}
use webdav_server_rs.Responses.{auth_error, build_error}
use webdav_server_rs.Responses.Errors.{IsErrorResponse, build_error-IsErrorResponse}
use webdav_server_rs.Server.{State, user_param_of, do_auth, handle}

auth_without_credentials :
    (env : Environment) {S : Type 0} (config : Config S) (req : HttpRequest) (location : Location S)
    (remote : SocketAddr) (w : World)
    → env.basic req.headers ≡ none
    → auth env config req location remote w ≡ returned (w, err unauthorized)
unfolding auth
auth_without_credentials env config req location remote w missing = rw (auth, missing) refl

module _ (env : Environment) (dav : DavCrate) (config : Config dav.MethodSet) (remote : SocketAddr)
    (location : Location dav.MethodSet) (path : Str) (req : HttpRequest) where
  wants_login :
      (method : dav.Method)
      → location.auth ≡ some Auth.true
      → do_auth env dav config remote location path req method ≡ true
  unfolding do_auth
  wants_login method wanted = rw (do_auth, wanted) refl

  -- At a location with `auth = true`, a request without an Authorization header is answered with 401
  -- and the challenge of the location, if its :user is UTF-8. No call is made to the handler, and
  -- the caches stay as they are.
  pub handle_without_credentials :
      (method : dav.Method) (params : List (Option Match)) (s s' : State dav.MethodSet)
      (res : HttpResponse) (first : Option Match) (user_param : Option Str)
      → location.auth ≡ some Auth.true
      → env.basic req.headers ≡ none
      → get_elem? params 0 ≡ some first
      → user_param_of first ≡ some user_param
      → handle env dav config remote location path req method params s ≡ returned (s', res)
      → (s' ≡ s) × IsErrorResponse env config unauthorized (some location) res
  unfolding handle auth_error
  handle_without_credentials method params s s' res first user_param wanted missing found decoded
        e =
      let denied = auth_without_credentials env config req location remote s.world missing in
      let login = wants_login method wanted in
      let (f, got, e₁) = >>=-eq-returned (unwrap (get_elem? params 0)) _ e in
      let decoded' : user_param_of f ≡ some user_param =
        subst (λ x. user_param_of x ≡ some user_param) (ground arith) decoded in
      let (res', made, last) =
        >>=-eq-returned (build_error env config unauthorized (some location)) _
          (rw (decoded', login, denied) at e₁) in
      let same : res' ≡ res = ground arith in
      (
        ground arith,
        build_error-IsErrorResponse env config unauthorized (some location) res
            (made ∙ ap returned same),
      )
