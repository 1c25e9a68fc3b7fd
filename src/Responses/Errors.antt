-- ===== src/Responses/Errors.antt =====
-- When an error response can be made, and what it carries.
use webdav_server_rs.Prelude.{
  nat_eq, str_eq, ◌≡◌, ◌↔◌, refl, sym, ap, ◌∙◌, subst, Bool, true, false, Bool-cases, not, ◌&&◌,
  ◌||◌, inl, inr, Option, Option-cases, none, ◌++◌, some, List, [], Str, bytes, ◌==◌, eq_iff,
  returned, panicked, arith,
}
use mathlib.Core.Option
use webdav_server_rs.Config.{Location, Config}
use webdav_server_rs.Http.{StatusCode, unauthorized, HttpResponse, Environment}
use webdav_server_rs.Responses.{
  identification, add_header, response_builder, challenge, error_message, build_error,
}

module _ (env : Environment) {S : Type 0} (config : Config S) (code : StatusCode)
    (location : Option (Location S)) where
  -- The texts that become values of headers are values of headers.
  pub record AreHeaderValues : Type 0 where
    pub server :
        (identification env config == []) ≡ false
        → env.is_header_value (identification env config) ≡ true
    pub content_type : env.is_header_value (bytes "text/xml") ≡ true
    pub authenticate :
        code ≡ unauthorized → env.is_header_value (challenge env config location) ≡ true

  -- Whether `build_error` returns turns on these tests alone.
  are_valid : Bool
  are_valid =
      (identification env config == [] || env.is_header_value (identification env config))
      && env.is_header_value (bytes "text/xml")
      && (not (code == unauthorized) || env.is_header_value (challenge env config location))

  response_builder_of_valid :
      are_valid ≡ true → (hs : List (Str × Str)) × (response_builder env config ≡ some hs)
  unfolding are_valid response_builder add_header
  response_builder_of_valid v = elim (Bool-cases (identification env config == [])) [
    | inl absent ↦ ([], rw absent refl)
    | inr named ↦
        let valid : env.is_header_value (identification env config) ≡ true = ground arith in
        (env.append_header [] (bytes "server") (identification env config), rw (named, valid) refl)
  ]

  -- The realm: that of the location, or else that of the server, or else a default.
  pub data IsRealm : Str → Type 0 where
    of_location :
        {l : Location S} {realm : Str}
        → location ≡ some l
        → l.accounts.realm ≡ some realm
        → IsRealm realm
    of_server :
        {realm : Str}
        → ((l : Location S) → location ≡ some l → l.accounts.realm ≡ none)
        → config.accounts.realm ≡ some realm
        → IsRealm realm
    by_default :
        ((l : Location S) → location ≡ some l → l.accounts.realm ≡ none)
        → config.accounts.realm ≡ none
        → IsRealm (bytes "Webdav Server")

  -- A response to an error carries its status, and a challenge with a 401.
  abbrev pub IsErrorResponse : HttpResponse → Type 0
  IsErrorResponse r =
      (r.status ≡ code)
      × (code ≡ unauthorized
          → (hs : List (Str × Str)) × (realm : Str) × IsRealm realm
            × (r.headers
                ≡ env.append_header hs (bytes "www-authenticate")
                    (bytes "Basic realm=\"" ++ realm ++ bytes "\"")))

  challenge-IsRealm :
      (realm : Str) × IsRealm realm
      × (challenge env config location ≡ bytes "Basic realm=\"" ++ realm ++ bytes "\"")
  unfolding challenge Option.bind
  challenge-IsRealm = elim (Option-cases (Option.bind location (λ l. l.accounts.realm))) [
    | inr (realm, own) ↦ elim (Option-cases location) [
      | inl nowhere ↦ absurd (ground arith)
      | inr (l, there_is) ↦ (realm, of_location there_is (rw there_is at own), rw own refl)
    ]
    | inl no_own ↦
        let unset = λ (l : Location S) (e : location ≡ some l). (rw e at no_own) in
        elim (Option-cases config.accounts.realm) [
          | inr (realm, general) ↦ (realm, of_server unset general, rw (no_own, general) refl)
          | inl no_general ↦ (_, by_default unset no_general, rw (no_own, no_general) refl)
        ]
  ]

  returned_of_valid :
      are_valid ≡ true
      → (r : HttpResponse) × (build_error env config code location ≡ returned r) × IsErrorResponse r
  unfolding are_valid build_error add_header
  returned_of_valid v =
      let (hs, e) = response_builder_of_valid v in
      let xml : env.is_header_value (bytes "text/xml") ≡ true = ground arith in
      let hs' = env.append_header hs (bytes "content-type") (bytes "text/xml") in
      elim (Bool-cases (code == unauthorized)) [
        | inl denied ↦
            let valid : env.is_header_value (challenge env config location) ≡ true = ground arith in
            (
              record {
                status = code;
                headers =
                    env.append_header hs' (bytes "www-authenticate")
                      (challenge env config location);
                body = error_message env config code;
              },
              rw (build_error, denied, e, xml, valid) refl,
              (
                refl,
                λ _.
                    let (realm, is, spelt) = challenge-IsRealm in
                    (hs', realm, is, ap (env.append_header hs' (bytes "www-authenticate")) spelt),
              ),
            )
        | inr other ↦ (
          record { status = code; headers = hs'; body = error_message env config code },
          rw (build_error, other, e, xml) refl,
          (refl, λ h. absurd (ground (arith, eq_iff code unauthorized))),
        )
      ]

  panicked_of_invalid : are_valid ≡ false → build_error env config code location ≡ panicked
  unfolding are_valid build_error response_builder add_header
  panicked_of_invalid v = ground (arith, eq_iff code unauthorized)

  AreHeaderValues_iff : (are_valid ≡ true) ↔ AreHeaderValues
  unfolding are_valid
  AreHeaderValues_iff = (
    λ v. record {
      server = λ h. ground (arith, eq_iff code unauthorized);
      content_type = ground (arith, eq_iff code unauthorized);
      authenticate = λ h. ground (arith, eq_iff code unauthorized);
    },
    λ h. ground (arith, eq_iff code unauthorized, h.server, h.content_type, h.authenticate),
  )

  valid_of_returned :
      (r : HttpResponse) → build_error env config code location ≡ returned r → are_valid ≡ true
  valid_of_returned r e = elim (Bool-cases are_valid) [
    | inl good ↦ good
    | inr bad ↦ absurd (ground (arith, panicked_of_invalid bad))
  ]

response_of : {a b : HttpResponse} → returned a ≡ returned b → a ≡ b
response_of e =
    ap (λ o. elim o [ returned x ↦ x | panicked ↦ record { status = 0; headers = []; body = [] } ])
      e

-- An error response can be made exactly when the texts in its headers are values of headers.
pub build_error_iff :
    (env : Environment) {S : Type 0} (config : Config S) (code : StatusCode)
    (location : Option (Location S))
    → ((r : HttpResponse) × (build_error env config code location ≡ returned r))
      ↔ AreHeaderValues env config code location
build_error_iff env config code location = (
  λ (r, e).
      (AreHeaderValues_iff env config code location).0
        (valid_of_returned env config code location r e),
  λ h.
      let (r, e, _) =
        returned_of_valid env config code location
          ((AreHeaderValues_iff env config code location).1 h) in
      (r, e),
)

-- An error response carries the status, and with 401 the challenge for the realm: that of the
-- location, or else that of the server, or else a default.
pub build_error-IsErrorResponse :
    (env : Environment) {S : Type 0} (config : Config S) (code : StatusCode)
    (location : Option (Location S)) (r : HttpResponse)
    → build_error env config code location ≡ returned r
    → IsErrorResponse env config code location r
build_error-IsErrorResponse env config code location r e =
    let (r', e', h) =
      returned_of_valid env config code location (valid_of_returned env config code location r e) in
    subst (IsErrorResponse env config code location) (response_of (sym e' ∙ e)) h
