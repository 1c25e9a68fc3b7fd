-- ===== src/Router/Matching.antt =====
-- A router reports the routes that match, in the order in which they were added.
use webdav_server_rs.Prelude.{
  ℕ, suc, ◌≡◌, refl, Bool, true, Bool-cases, inl, inr, ◌&&◌, some, unwrap_or, List, [], ◌∷◌, map,
  Str, drop, get_elem?_of_drop, returned, unwrap, >>=-eq-returned, subst, arith, filter,
}
use mathlib.Core.Option
use webdav_server_rs.Router.Regexes.{RegexCrate, positions}
use webdav_server_rs.Router.{
  Route, MatchedRoute, Router, Builder, build, params_of, matches_from, matches,
}

module _ (lib : RegexCrate) (S Method T : Type 0) (allows : S → Method → Bool) where
  -- Whether a route is one for a path and a method.
  abbrev pub fits : Str → Method → Route lib S Method T → Bool
  fits path method r =
      lib.is_match r.regex path && unwrap_or (Option.map (λ m. allows m method) r.methods) true

  -- What is reported of a route: its data, and for each name what its expression captured.
  abbrev pub reported : Str → List Str → Route lib S Method T → MatchedRoute lib S Method T
  reported path names r = record {
    methods = r.methods;
    params = params_of lib r.regex path names;
    payload = r.payload;
  }

  matches_from-positions :
      (router : Router lib S Method T) (path : Str) (method : Method) (names : List Str) (idx : ℕ)
      (rest : List (Route lib S Method T))
      → drop idx router.routes ≡ rest
      → matches_from lib S Method T allows router path method names
          (positions (λ r. lib.is_match r path) idx (map (λ r. r.regex) rest))
        ≡ returned (map (reported path names) (filter (fits path method) rest))
  unfolding matches_from
  matches_from-positions router path method names idx [] e = refl
  matches_from-positions router path method names idx (r ∷ rest) e =
      let (here, later) = get_elem?_of_drop idx router.routes e in
      let ih = matches_from-positions router path method names (suc idx) rest later in
      elim (Bool-cases (lib.is_match r.regex path)) [
        | inl hit ↦
            rw (hit, matches_from, here, ih)
              (elim (Bool-cases (unwrap_or (Option.map (λ m. allows m method) r.methods) true)) [
                | inl allowed ↦ rw allowed refl
                | inr denied ↦ rw denied refl
              ])
        | inr miss ↦ rw miss ih
      ]

  -- A router that `build` returned reports the routes of its builder that match the path, and whose
  -- methods, if it has any, contain the method: all of these, each once, in the order of the
  -- builder. For each of them it reports the data that was added with it. It does not panic.
  pub matches-build :
      (b b' : Builder lib S Method T) (router : Router lib S Method T) (path : Str)
      (method : Method) (names : List Str)
      → build lib S Method T b ≡ returned (router, b')
      → matches lib S Method T allows router path method names
        ≡ returned (map (reported path names) (filter (fits path method) b.routes))
  unfolding build matches
  matches-build b b' router path method names built =
      let routes = map (λ r. r.regex) b.routes in
      let (set, compiled, rest) =
        >>=-eq-returned (unwrap (lib.compile_set (map lib.as_str routes))) _ built in
      let found : lib.compile_set (map lib.as_str routes) ≡ some set = ground arith in
      let same : record { set = set; routes = b.routes } ≡ router = ground arith in
      subst
        (λ rt.
          matches lib S Method T allows rt path method names
          ≡ returned (map (reported path names) (filter (fits path method) b.routes)))
        same
        (rw (lib.set_matches_lem routes set path found) (
          matches_from-positions (record { set = set; routes = b.routes }) path method names 0
            b.routes refl))
