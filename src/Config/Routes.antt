-- ===== src/Config/Routes.antt =====
-- config.rs, `build_routes`: every route of every location goes into one router, with the index of
-- its location.
pub mod Order
pub mod Expressions
use webdav_server_rs.Prelude.{
  ℕ, suc, Option, none, some, List, [], ◌∷◌, Str, Result, ok, err, Outcome, returned, or_return,
  ◌>>=◌,
}
use webdav_server_rs.Config.{Location, Config}
use webdav_server_rs.Router.{Builder, Router, builder, add, build}
use webdav_server_rs.Router.Regexes.{RegexCrate}

-- The message of a route that does not compile: the location's index, the route, the error.
pub record RouteError (E : Type 0) : Type 0 where
  pub idx : ℕ
  pub route : Str
  pub error : E

module _ (lib : RegexCrate) (S Method : Type 0) where
  -- The inner loop, over the routes of one location.
  unfoldable pub add_routes :
      ℕ
      → Option S
      → List Str
      → Builder lib S Method ℕ
      → Outcome (Result (Builder lib S Method ℕ) (RouteError lib.Error))
  add_routes idx methods [] b = returned (ok b)
  add_routes idx methods (r ∷ rest) b =
      or_return (add lib S Method ℕ r methods idx b)
        (λ e. record { idx = idx; route = r; error = e }) (add_routes idx methods rest)

  -- The outer loop, over the locations from an index on.
  unfoldable pub add_locations :
      ℕ
      → List (Location S)
      → Builder lib S Method ℕ
      → Outcome (Result (Builder lib S Method ℕ) (RouteError lib.Error))
  unfolding add_routes
  add_locations idx [] b = returned (ok b)
  add_locations idx (l ∷ rest) b =
      or_return (add_routes idx l.methods l.route b) (λ e. e) (add_locations (suc idx) rest)

  -- `build_routes`: the router that goes into the configuration.
  unfoldable pub build_routes :
      Config S → Outcome (Result (Router lib S Method ℕ) (RouteError lib.Error))
  unfolding add_locations
  build_routes config =
      or_return (add_locations 0 config.location (builder lib S Method ℕ)) (λ e. e)
        λ b. do (router, _) ← build lib S Method ℕ b; returned (ok router)
