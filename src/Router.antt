-- ===== src/Router.antt =====
-- router.rs: the builder of a router, and the routes that match a request path.
pub mod Regexes
pub mod Matching
pub mod Translation
mod Tests
use webdav_server_rs.Prelude.{
  ℕ, zero, suc, ◌+◌, Bool, true, false, not, Option, none, some, unwrap_or, List, [], ◌∷◌, ◌++◌,
  map, Str, str_eq, nat_eq, ◌==◌, bytes, if◌then◌else◌, starts_with, drop, from_utf8, chars,
  collect, get_elem?, Result, ok, err, Outcome, returned, panicked, ◌>>=◌, unwrap,
}
use mathlib.Core.Option
use webdav_server_rs.Router.Regexes.{Match, RegexCrate}

-- The characters of the private-use area that stand for `*`, `(` and `)` until the rest of the
-- route is escaped.
abbrev pub splat_char : ℕ
splat_char = 0xe001

abbrev pub open_char : ℕ
open_char = 0xe002

abbrev pub close_char : ℕ
close_char = 0xe003

-- The closure that `add` maps over the characters.
unfoldable pub protect : ℕ → ℕ
protect c =
    if c == b'*'
    then splat_char
    else if c == b'('
    then open_char
    else if c == b')'
    then close_char
    else if c == splat_char
    then b' '
    else if c == open_char
    then b' '
    else if c == close_char
    then b' '
    else c

-- The sources of the static expressions, with the private-use characters in UTF-8.
abbrev pub colon : Str
colon = bytes ":([a-zA-Z0-9]+)"

abbrev pub splat : Str
splat = 0xee ∷ 0x80 ∷ 0x81 ∷ bytes "([a-zA-Z0-9]+)"

abbrev pub maybe : Str
maybe =
    0xee ∷ 0x80 ∷ 0x82 ∷ bytes "([^" ++ 0xee ∷ 0x80 ∷ 0x82 ∷ bytes "]*)" ++ 0xee ∷ 0x80 ∷ 0x83 ∷ []

-- The regular expression for a route expression, without its anchors.
unfoldable pub translate : RegexCrate → Str → Outcome Str
unfolding protect
translate lib route =
    let re₀ = lib.escape (collect (map protect (chars route))) in
    do
      colon_re ← unwrap (lib.compile colon)
      splat_re ← unwrap (lib.compile splat)
      maybe_re ← unwrap (lib.compile maybe)
      let re₁ = lib.replace_all colon_re re₀ (bytes "(?P<$1>[^/]*)")
      let re₂ = lib.replace_all splat_re re₁ (bytes "(?P<$1>.*)")
      unwrap (from_utf8 (lib.replace_all maybe_re re₂ (bytes "($1)?")))

-- The parameters of a route that matched, in the order of their names.
unfoldable pub params_of : (lib : RegexCrate) → lib.Regex → Str → List Str → List (Option Match)
params_of lib regex path names = elim (lib.captures regex path) [
  | some caps ↦ map (lib.group caps) names
  | none ↦ map (λ _. none) names
]

-- `S` stands for `DavMethodSet` and `Method` for `DavMethod`, of the crate webdav-handler, and
-- `allows` for `DavMethodSet::contains`.
module _ (lib : RegexCrate) (S Method T : Type 0) where
  open lib use {
    Regex, RegexSet, Captures, Error, escape, compile, compile_error, as_str, replace_all, captures,
    group, compile_set, set_matches,
  }

  pub record Route : Type 0 where
    pub regex : Regex
    pub methods : Option S
    pub payload : T

  pub record MatchedRoute : Type 0 where
    pub methods : Option S
    pub params : List (Option Match)
    pub payload : T

  -- A builder is its vector of routes.
  pub record Builder : Type 0 where
    pub routes : List Route

  pub record Router : Type 0 where
    pub set : RegexSet
    pub routes : List Route

  -- `Router::builder`
  unfoldable pub builder : Builder
  builder = record { routes = [] }

  -- `Builder::add_re`: the flag `(?s)` goes behind the `^` with which the source starts.
  unfoldable pub add_re : Str → Option S → T → Builder → Result Builder Error
  add_re s methods payload b =
      let s2 = bytes "^(?s)" ++ drop 1 s in
      elim (compile s2) [
        | none ↦ err (compile_error s2)
        | some regex ↦ ok (record {
          routes = b.routes ++ record { regex = regex; methods = methods; payload = payload } ∷ [];
        })
      ]

  -- `Builder::add`
  unfoldable pub add : Str → Option S → T → Builder → Outcome (Result Builder Error)
  unfolding add_re translate
  add route methods payload b =
      if starts_with route (bytes "^")
      then returned (add_re route methods payload b)
      else if not (starts_with route (bytes "/"))
      then returned (ok b)
      else (do
        re ← translate lib route
        returned (add_re (bytes "^" ++ re ++ bytes "$") methods payload b))

  -- `Builder::build`: the router, and the builder with its routes taken out.
  unfoldable pub build : Builder → Outcome (Router × Builder)
  build b = do
    set ← unwrap (compile_set (map as_str (map (λ r. r.regex) b.routes)))
    returned (record { set = set; routes = b.routes }, record { routes = [] })

  module _ (allows : S → Method → Bool) where
    -- The loop of `Router::matches` over the indices that the set reports.
    unfoldable pub matches_from :
        Router → Str → Method → List Str → List ℕ → Outcome (List MatchedRoute)
    unfolding params_of
    matches_from router path method names [] = returned []
    matches_from router path method names (idx ∷ rest) = do
      route ← unwrap (get_elem? router.routes idx)
      matched ← matches_from router path method names rest
      returned (
          if unwrap_or (Option.map (λ m. allows m method) route.methods) true
          then record {
            methods = route.methods;
            params = params_of lib route.regex path names;
            payload = route.payload;
          }
            ∷ matched
          else matched)

    unfoldable pub matches : Router → Str → Method → List Str → Outcome (List MatchedRoute)
    unfolding matches_from
    matches router path method names =
        matches_from router path method names (set_matches router.set path)
