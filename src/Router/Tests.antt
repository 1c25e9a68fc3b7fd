-- ===== src/Router/Tests.antt =====
-- A router for literal paths, and the theorems applied to it.
use webdav_server_rs.Prelude.{
  nat_eq, str_eq, ℕ, ◌≡◌, refl, Option, none, some, List, [], ◌∷◌, ◌++◌, map, filter, Str, bytes,
  returned,
}
use webdav_server_rs.Router.{Route, Builder, Router, builder, add, build, matches}
use webdav_server_rs.Router.Matching.{fits, reported, matches-build}
use webdav_server_rs.Sample.{literal, second_time}

program : Unit {0}
unfolding build add builder
program = tt

abbrev names : List Str
names = bytes "user" ∷ bytes "path" ∷ []

abbrev route : Str → ℕ → Option (List Str) → Route literal (List Str) Str ℕ
route path payload methods = record {
  regex = bytes "^(?s)" ++ path ++ bytes "$";
  methods = methods;
  payload = payload;
}

abbrev routes : Builder literal (List Str) Str ℕ
routes = record {
  routes =
      route (bytes "/x") 0 (some (bytes "PUT" ∷ []))
      ∷ route (bytes "/x") 1 none
      ∷ route (bytes "/y") 2 none
      ∷ [];
}

built :
    (router : Router literal (List Str) Str ℕ) × (left : Builder literal (List Str) Str ℕ) × (build
        literal
        (List Str)
        Str
        ℕ
        routes
      ≡ returned (router, left))
unfolding program
built = (_, _, refl)

matches-build_example :
    matches literal (List Str) Str ℕ second_time.contains built.0 (bytes "/x") (bytes "GET") names
    ≡ returned (
        map (reported literal (List Str) Str ℕ second_time.contains (bytes "/x") names) (
          filter
            (fits literal (List Str) Str ℕ second_time.contains (bytes "/x") (bytes "GET"))
            routes.routes))
matches-build_example =
    matches-build literal (List Str) Str ℕ second_time.contains routes built.1 built.0 (bytes "/x")
      (bytes "GET") names built.2
