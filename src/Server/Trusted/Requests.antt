-- ===== src/Server/Trusted/Requests.antt =====
-- Requests keep the entries of the caches genuine.
use webdav_server_rs.Prelude.{
  nat_eq, str_eq, ℕ, ◌≡◌, ap, subst, inl, inr, false, Bool-cases, Option-cases, Result-cases, not,
  ◌||◌, is_none, Option, none, some, unwrap_or, List, [], ◌∷◌, Str, bytes, get_elem?, from_utf8,
  ◌==◌, if◌then◌else◌, Outcome, returned, >>=-eq-returned, unwrap,
}
use mathlib.Core.Option
use webdav_server_rs.Config.{SocketAddr, Location, Config}
use webdav_server_rs.Unixuser.{User}
use webdav_server_rs.Http.{not_found, HttpRequest, HttpResponse, Environment}
use webdav_server_rs.Auth.{auth}
use webdav_server_rs.Router.{MatchedRoute, Router, matches}
use webdav_server_rs.Router.Regexes.{Match, RegexCrate}
use webdav_server_rs.Dav.{DavConfig, DavCall, DavCrate}
use webdav_server_rs.Responses.{expand_directory, clone_httpreq, set_server_header}
use webdav_server_rs.Server.{
  State, user_param_of, prefix_of, acct, run_davhandler, answer, serve, handle_as, do_auth, handle,
}
use webdav_server_rs.Server.Route.{goes_on, route_from, route}
use webdav_server_rs.Server.Trusted.Lookups.{Trusted, first_of, auth-Trusted, acct-Trusted}
use webdav_server_rs.Server.Trusted.{IsMonotone}

module _ (env : Environment) (dav : DavCrate) (config : Config dav.MethodSet)
    (mono : IsMonotone env config.unix.aux_groups) where
  module _ (remote : SocketAddr) where
    answer-world :
        (s s' : State dav.MethodSet) (r : Outcome HttpResponse) (res : HttpResponse)
        → answer env dav config remote s r ≡ returned (s', res)
        → s ≡ s'
    answer-world s s' r res e = let (resp, _, same) = >>=-eq-returned r _ e in first_of same

    run_davhandler-world :
        (c : DavConfig dav.MethodSet) (req : HttpRequest) (s s' : State dav.MethodSet)
        (res : HttpResponse)
        → run_davhandler env dav config remote c req s ≡ returned (s', res)
        → s.world ≡ s'.world
    unfolding run_davhandler
    run_davhandler-world c req s s' res e =
        let call : DavCall dav.MethodSet = record { config = c; request = req } in
        let (hs, _, rest) =
          >>=-eq-returned (set_server_header env config (dav.handle_with s.calls call).headers) _
            e in
        ap (λ t. t.world) (first_of rest)

    module _ (location : Location dav.MethodSet) (path : Str) (req : HttpRequest) where
      serve-world :
          (path_param : Option Match) (auth_user : Option Str) (pwd : Option User) (dir : Str)
          (s s' : State dav.MethodSet) (res : HttpResponse)
          → serve env dav config remote location path req path_param auth_user pwd dir s
            ≡ returned (s', res)
          → s.world ≡ s'.world
      unfolding serve
      serve-world path_param auth_user pwd dir s s' res e =
          let (prefix_bytes, _, e₁) = >>=-eq-returned (prefix_of path path_param) _ e in
          elim (Option-cases (from_utf8 prefix_bytes)) [
            | inl bad ↦ ap (λ t. t.world) (answer-world s s' _ res (rw bad at e₁))
            | inr (prefix, good) ↦
                let (default, _, e₂) =
                  >>=-eq-returned (unwrap (dav.from_vec (bytes "GET" ∷ bytes "HEAD" ∷ []))) _
                    (rw good at e₁) in
                run_davhandler-world _ req s s' res e₂
          ]

      handle_as-Trusted :
          (params : List (Option Match)) (user_param auth_user : Option Str)
          (s s' : State dav.MethodSet) (res : HttpResponse)
          → Trusted env dav config mono s.world
          → handle_as env dav config remote location path req params user_param auth_user s
            ≡ returned (s', res)
          → Trusted env dav config mono s'.world
      unfolding handle_as
      handle_as-Trusted params user_param auth_user s s' res trusted e =
          let ((w, r), asked, e₁) =
            >>=-eq-returned (acct env dav config remote location auth_user user_param s.world) _
              e in
          let after =
            acct-Trusted env dav config mono remote location auth_user user_param s.world w r
              trusted asked in
          let from_world =
            λ (same : w ≡ s'.world). subst (Trusted env dav config mono) same after in
          elim (Result-cases r) [
            | inr (status, bad) ↦
                from_world (
                  ap (λ t. t.world) (answer-world (record s { world = w }) s' _ res (rw bad at e₁)))
            | inl (pwd, good) ↦ elim (Result-cases (expand_directory location.directory pwd)) [
              | inr (status, bad) ↦ from_world (
                  ap (λ t. t.world)
                    (answer-world (record s { world = w }) s' _ res (rw (good, bad) at e₁)))
              | inl (dir, expanded) ↦
                  let (path_param, _, e₂) =
                    >>=-eq-returned (unwrap (get_elem? params 1)) _ (rw (good, expanded) at e₁) in
                  from_world
                    (serve-world path_param auth_user pwd dir (record s { world = w }) s' res e₂)
            ]
          ]

      handle-Trusted :
          (method : dav.Method) (params : List (Option Match)) (s s' : State dav.MethodSet)
          (res : HttpResponse)
          → Trusted env dav config mono s.world
          → handle env dav config remote location path req method params s ≡ returned (s', res)
          → Trusted env dav config mono s'.world
      unfolding handle
      handle-Trusted method params s s' res trusted e =
          let (first, _, e₁) = >>=-eq-returned (unwrap (get_elem? params 0)) _ e in
          elim (Option-cases (user_param_of first)) [
            | inl bad ↦
                subst (Trusted env dav config mono)
                  (ap (λ t. t.world) (answer-world s s' _ res (rw bad at e₁))) trusted
            | inr (user_param, good) ↦
                elim (Bool-cases (do_auth env dav config remote location path req method)) [
                  | inr open_to_all ↦
                      handle_as-Trusted params user_param none s s' res trusted
                        (rw (good, open_to_all) at e₁)
                  | inl locked ↦
                      let ((w, r), asked, e₂) =
                        >>=-eq-returned (auth env config req location remote s.world) _
                          (rw (good, locked) at e₁) in
                      let after =
                        auth-Trusted env dav config mono req location remote s.world w r trusted
                          asked in
                      let from_world =
                        λ (same : w ≡ s'.world). subst (Trusted env dav config mono) same after in
                      elim (Result-cases r) [
                        | inr (status, refused) ↦ from_world (
                            ap (λ t. t.world)
                              (answer-world (record s { world = w }) s' _ res (rw refused at e₂)))
                        | inl (user, accepted) ↦
                            elim (Bool-cases
                              (unwrap_or (Option.map (λ u. not (u == user)) user_param) false)) [
                                | inl differ ↦ from_world (
                                    ap (λ t. t.world)
                                      (answer-world (record s { world = w }) s' _ res
                                        (rw (accepted, differ) at e₂)))
                                | inr same ↦
                                    handle_as-Trusted params user_param (some user)
                                      (record s { world = w }) s' res after
                                      (rw (accepted, same) at e₂)
                              ]
                      ]
                ]
          ]

    pub route_from-Trusted :
        (lib : RegexCrate) (method : dav.Method) (path : Str)
        (ms : List (MatchedRoute lib dav.MethodSet dav.Method ℕ)) (reqdata : Option HttpRequest)
        (s s' : State dav.MethodSet) (res : HttpResponse)
        → Trusted env dav config mono s.world
        → route_from lib env dav config remote method path ms reqdata s ≡ returned (s', res)
        → Trusted env dav config mono s'.world
    unfolding route_from
    route_from-Trusted lib method path [] reqdata s s' res trusted e =
        subst (Trusted env dav config mono) (ap (λ t. t.world) (answer-world s s' _ res e)) trusted
    route_from-Trusted lib method path (m ∷ rest) reqdata s s' res trusted e =
        let (req, _, e₁) = >>=-eq-returned (unwrap reqdata) _ e in
        let (location, _, e₂) =
          >>=-eq-returned (unwrap (get_elem? config.location m.payload)) _ e₁ in
        let ((s₁, res₁), handled, e₃) =
          >>=-eq-returned (handle env dav config remote location path req method m.params s) _ e₂ in
        let after = handle-Trusted location path req method m.params s s₁ res₁ trusted handled in
        let reqdata' = if goes_on location.on_notfound then some (clone_httpreq req) else none in
        elim (Bool-cases (is_none reqdata' || not (res₁.status == not_found))) [
          | inl final ↦
              subst (Trusted env dav config mono) (ap (λ t. t.world) (first_of (rw final at e₃)))
                after
          | inr more ↦
              route_from-Trusted lib method path rest reqdata' s₁ s' res after (rw more at e₃)
        ]

    pub route-Trusted :
        (lib : RegexCrate) (router : Router lib dav.MethodSet dav.Method ℕ) (req : HttpRequest)
        (s s' : State dav.MethodSet) (res : HttpResponse)
        → Trusted env dav config mono s.world
        → route lib env dav config remote router req s ≡ returned (s', res)
        → Trusted env dav config mono s'.world
    unfolding route
    route-Trusted lib router req s s' res trusted e = elim (Option-cases (dav.from_uri req.uri)) [
      | inl bad ↦
          subst (Trusted env dav config mono)
            (ap (λ t. t.world) (answer-world s s' _ res (rw (route, bad) at e))) trusted
      | inr (path, good) ↦ elim (Option-cases (dav.try_from req.method)) [
        | inl bad ↦
            subst (Trusted env dav config mono)
              (ap (λ t. t.world) (answer-world s s' _ res (rw (route, good, bad) at e))) trusted
        | inr (method, known) ↦
            let (matched, _, e₁) =
              >>=-eq-returned
                (matches lib dav.MethodSet dav.Method ℕ dav.contains router path method
                  (bytes "user" ∷ bytes "path" ∷ []))
                _ (rw (route, good, known) at e) in
            route_from-Trusted lib method path matched (some req) s s' res trusted e₁
      ]
    ]
