-- ===== src/Config/Routes/Order.antt =====
-- The routes of the router are those of the locations, in the order of the file.
use webdav_server_rs.Prelude.{
  ℕ, suc, ◌+◌, ◌≤◌, ◌<◌, ◌≡◌, refl, sym, ap, ◌∙◌, subst, Bool, ◌||◌, Bool-cases, Option-cases, drop,
  inl, inr, Option, List, [], ◌∷◌, ◌++◌, append_assoc, append-nil, map, All, length, Str, bytes,
  starts_with, if◌then◌else◌, ok, returned, >>=-eq-returned, or_return-eq-ok, arith,
}
use webdav_server_rs.Config.{Location, Config}
use webdav_server_rs.Config.Routes.{add_routes, add_locations, build_routes}
use webdav_server_rs.Router.{Route, Builder, Router, builder, add_re, translate, add, build}
use webdav_server_rs.Router.Regexes.{RegexCrate}

-- Whether `add` takes a route: it has to start with `^` or `/`.
abbrev pub is_taken : Str → Bool
is_taken r = starts_with r (bytes "^") || starts_with r (bytes "/")

-- The index and the methods of a location, once for each of its routes that is taken.
abbrev pub entries_of : {S : Type 0} → ℕ → Option S → List Str → List (ℕ × Option S)
entries_of idx methods [] = []
entries_of idx methods (r ∷ rest) =
    if is_taken r then (idx, methods) ∷ entries_of idx methods rest else entries_of idx methods rest

abbrev pub entries : {S : Type 0} → ℕ → List (Location S) → List (ℕ × Option S)
entries idx [] = []
entries idx (l ∷ rest) = entries_of idx l.methods l.route ++ entries (suc idx) rest

entries_of-cons :
    {S : Type 0} (idx : ℕ) (methods : Option S) (r : Str) (rs : List Str)
    → entries_of idx methods (r ∷ []) ++ entries_of idx methods rs ≡ entries_of idx methods (r ∷ rs)
entries_of-cons idx methods r rs = elim (Bool-cases (is_taken r)) [
  | inl taken ↦ rw taken refl
  | inr left ↦ rw left refl
]

module _ (lib : RegexCrate) (S Method : Type 0) where
  -- The same of a route in the router.
  abbrev pub entry : Route lib S Method ℕ → ℕ × Option S
  entry r = (r.payload, r.methods)

  map-entry-append :
      (xs ys : List (Route lib S Method ℕ)) → map entry (xs ++ ys) ≡ map entry xs ++ map entry ys
  map-entry-append [] ys = refl
  map-entry-append (x ∷ xs) ys = ap (◌∷◌ (entry x)) (map-entry-append xs ys)

  add_re-entries :
      (s : Str) (methods : Option S) (idx : ℕ) (b b' : Builder lib S Method ℕ)
      → add_re lib S Method ℕ s methods idx b ≡ ok b'
      → map entry b'.routes ≡ map entry b.routes ++ (idx, methods) ∷ []
  unfolding add_re
  add_re-entries s methods idx b b' e =
      elim (Option-cases (lib.compile (bytes "^(?s)" ++ drop 1 s))) [
        | inl bad ↦ absurd (ground arith)
        | inr (regex, found) ↦
            let r : Route lib S Method ℕ = record {
              regex = regex;
              methods = methods;
              payload = idx;
            } in
            let same : record { routes = b.routes ++ r ∷ [] } ≡ b' = ground arith in
            subst (λ c. map entry c.routes ≡ map entry b.routes ++ (idx, methods) ∷ []) same
              (map-entry-append b.routes (r ∷ []))
      ]

  add-entries :
      (r : Str) (methods : Option S) (idx : ℕ) (b b' : Builder lib S Method ℕ)
      → add lib S Method ℕ r methods idx b ≡ returned (ok b')
      → map entry b'.routes ≡ map entry b.routes ++ entries_of idx methods (r ∷ [])
  unfolding add
  add-entries r methods idx b b' e = elim (Bool-cases (starts_with r (bytes "^"))) [
    | inl regex ↦ rw regex (add_re-entries r methods idx b b' (ground arith))
    | inr plain ↦ elim (Bool-cases (starts_with r (bytes "/"))) [
      | inl slash ↦
          let (re, _, added) = >>=-eq-returned (translate lib r) _ (rw (plain, slash) at e) in
          rw (plain, slash)
            (add_re-entries (bytes "^" ++ re ++ bytes "$") methods idx b b' (ground arith))
      | inr other ↦
          let same : b ≡ b' = ground arith in
          rw (plain, other) (ap (λ c. map entry c.routes) (sym same) ∙ sym (append-nil _))
    ]
  ]

  add_routes-entries :
      (idx : ℕ) (methods : Option S) (rs : List Str) (b b' : Builder lib S Method ℕ)
      → add_routes lib S Method idx methods rs b ≡ returned (ok b')
      → map entry b'.routes ≡ map entry b.routes ++ entries_of idx methods rs
  unfolding add_routes
  add_routes-entries idx methods [] b b' e =
      let same : b ≡ b' = ground arith in
      ap (λ c. map entry c.routes) (sym same) ∙ sym (append-nil _)
  add_routes-entries idx methods (r ∷ rs) b b' e =
      let (c, added, rest) = or_return-eq-ok (add lib S Method ℕ r methods idx b) _ _ e in
      add_routes-entries idx methods rs c b' rest
      ∙ ap (λ es. es ++ entries_of idx methods rs) (add-entries r methods idx b c added)
      ∙ append_assoc (map entry b.routes) (entries_of idx methods (r ∷ []))
          (entries_of idx methods rs)
      ∙ ap (λ es. map entry b.routes ++ es) (entries_of-cons idx methods r rs)

  add_locations-entries :
      (idx : ℕ) (ls : List (Location S)) (b b' : Builder lib S Method ℕ)
      → add_locations lib S Method idx ls b ≡ returned (ok b')
      → map entry b'.routes ≡ map entry b.routes ++ entries idx ls
  unfolding add_locations
  add_locations-entries idx [] b b' e =
      let same : b ≡ b' = ground arith in
      ap (λ c. map entry c.routes) (sym same) ∙ sym (append-nil _)
  add_locations-entries idx (l ∷ ls) b b' e =
      let (c, added, rest) =
        or_return-eq-ok (add_routes lib S Method idx l.methods l.route b) _ _ e in
      add_locations-entries (suc idx) ls c b' rest
      ∙ ap (λ es. es ++ entries (suc idx) ls) (add_routes-entries idx l.methods l.route b c added)
      ∙ append_assoc (map entry b.routes) (entries_of idx l.methods l.route) (entries (suc idx) ls)

  build-routes :
      (b b' : Builder lib S Method ℕ) (router : Router lib S Method ℕ)
      → build lib S Method ℕ b ≡ returned (router, b')
      → b.routes ≡ router.routes
  unfolding build
  build-routes b b' router e = ground arith

  pub build_routes-build :
      (config : Config S) (router : Router lib S Method ℕ)
      → build_routes lib S Method config ≡ returned (ok router)
      → (b : Builder lib S Method ℕ) × (b' : Builder lib S Method ℕ) × (build lib S Method ℕ b
          ≡ returned (router, b'))
        × (b.routes ≡ router.routes)
  unfolding build_routes
  build_routes-build config router e =
      let (b, added, built) =
        or_return-eq-ok (add_locations lib S Method 0 config.location (builder lib S Method ℕ)) _ _
          e in
      let ((rt, b'), made, last) = >>=-eq-returned (build lib S Method ℕ b) _ built in
      let same : rt ≡ router = ground arith in
      (
        b,
        b',
        made ∙ ap (λ x. returned (x, b')) same,
        build-routes b b' rt made ∙ ap (λ x. x.routes) same,
      )

  -- If `build_routes` succeeds, the routes of the router, each with its location's index and
  -- methods, are those of the locations that start with `^` or `/`: in the order of the file, first
  -- by location and then by route.
  pub build_routes-entries :
      (config : Config S) (router : Router lib S Method ℕ)
      → build_routes lib S Method config ≡ returned (ok router)
      → map entry router.routes ≡ entries 0 config.location
  unfolding build_routes builder build
  build_routes-entries config router e =
      let (b, added, built) =
        or_return-eq-ok (add_locations lib S Method 0 config.location (builder lib S Method ℕ)) _ _
          e in
      let same : b.routes ≡ router.routes = ground arith in
      ap (map entry) (sym same)
      ∙ add_locations-entries 0 config.location (builder lib S Method ℕ) b added

entries_of-lt :
    {S : Type 0} (idx n : ℕ) (methods : Option S) (rs : List Str)
    → idx < n
    → All (λ x. x.0 < n) (entries_of idx methods rs)
entries_of-lt idx n methods [] lt = tt
entries_of-lt idx n methods (r ∷ rs) lt = ground (arith, entries_of-lt idx n methods rs lt)

All-append : {A : Type 0} (P : A → Type 0) (xs ys : List A) → All P xs → All P ys → All P (xs ++ ys)
All-append P [] ys a b = b
All-append P (x ∷ xs) ys a b = (a.0, All-append P xs ys a.1 b)

entries-lt :
    {S : Type 0} (idx n : ℕ) (ls : List (Location S))
    → idx + length ls ≤ n
    → All (λ x. x.0 < n) (entries idx ls)
entries-lt idx n [] le = tt
entries-lt idx n (l ∷ ls) le =
    All-append _ (entries_of idx l.methods l.route) (entries (suc idx) ls)
      (entries_of-lt idx n l.methods l.route (omega arith))
      (entries-lt (suc idx) n ls (omega arith))

All-of_map :
    {A B : Type 0} (P : B → Type 0) (f : A → B) (xs : List A)
    → All P (map f xs)
    → All (λ x. P (f x)) xs
All-of_map P f [] a = tt
All-of_map P f (x ∷ xs) a = (a.0, All-of_map P f xs a.1)

-- So the index with every route is that of a location.
pub build_routes-lt :
    (lib : RegexCrate) (S Method : Type 0) (config : Config S) (router : Router lib S Method ℕ)
    → build_routes lib S Method config ≡ returned (ok router)
    → All (λ r. r.payload < length config.location) router.routes
build_routes-lt lib S Method config router e =
    All-of_map (λ x. x.0 < length config.location) (entry lib S Method) router.routes
      (rw (build_routes-entries lib S Method config router e)
        (entries-lt 0 (length config.location) config.location (omega arith)))
