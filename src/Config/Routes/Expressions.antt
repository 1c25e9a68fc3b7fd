-- ===== src/Config/Routes/Expressions.antt =====
-- config.rs, `build_routes`: the routes of the router, with their expressions.
use webdav_server_rs.Prelude.{
  ℕ, suc, ◌≡◌, refl, sym, ap, ◌∙◌, subst, Bool-cases, Option-cases, inl, inr, drop, Option, some,
  List, [], ◌∷◌, ◌++◌, append-nil, append_assoc, Str, bytes, starts_with, if◌then◌else◌, ok,
  returned, >>=-eq-returned, or_return-eq-ok, arith,
}
use webdav_server_rs.Config.{Location, Config}
use webdav_server_rs.Config.Routes.{add_routes, add_locations, build_routes}
use webdav_server_rs.Config.Routes.Order.{is_taken}
use webdav_server_rs.Router.{Route, Builder, Router, builder, add_re, translate, add, build}
use webdav_server_rs.Router.Regexes.{RegexCrate}

-- A route as the file has it: its location's index and methods, and its text.
pub record Written (S : Type 0) : Type 0 where
  pub idx : ℕ
  pub methods : Option S
  pub text : Str

-- The routes of a location that are taken, and those of all locations.
abbrev pub written_of : {S : Type 0} → ℕ → Option S → List Str → List (Written S)
written_of idx methods [] = []
written_of idx methods (r ∷ rest) =
    if is_taken r
    then record { idx = idx; methods = methods; text = r } ∷ written_of idx methods rest
    else written_of idx methods rest

abbrev pub written : {S : Type 0} → ℕ → List (Location S) → List (Written S)
written idx [] = []
written idx (l ∷ rest) = written_of idx l.methods l.route ++ written (suc idx) rest

-- Two lists whose elements are related one by one.
abbrev pub AllPairs : {A B : Type 0} → (A → B → Type 0) → List A → List B → Type 0
AllPairs R [] [] = Unit
AllPairs R [] (_ ∷ _) = ⊥
AllPairs R (_ ∷ _) [] = ⊥
AllPairs R (x ∷ xs) (y ∷ ys) = R x y × AllPairs R xs ys

AllPairs-append :
    {A B : Type 0} (R : A → B → Type 0) (xs xs' : List A) (ys ys' : List B)
    → AllPairs R xs ys
    → AllPairs R xs' ys'
    → AllPairs R (xs ++ xs') (ys ++ ys')
AllPairs-append R [] xs' [] ys' a b = b
AllPairs-append R [] xs' (y ∷ ys) ys' a b = absurd a
AllPairs-append R (x ∷ xs) xs' [] ys' a b = absurd a
AllPairs-append R (x ∷ xs) xs' (y ∷ ys) ys' a b = (a.0, AllPairs-append R xs xs' ys ys' a.1 b)

module _ (lib : RegexCrate) (S Method : Type 0) where
  -- The text of the regular expression of a route, with the flag (?s) behind the ^: what follows its
  -- own ^, or else its translation and a $.
  pub data IsExpression : Str → Str → Type 0 where
    regular : (r : Str) → IsExpression (b'^' ∷ r) (bytes "^(?s)" ++ r)
    translated :
        (r re : Str)
        → translate lib (b'/' ∷ r) ≡ returned re
        → IsExpression (b'/' ∷ r) (bytes "^(?s)" ++ re ++ bytes "$")

  -- A route of the router for one of the file.
  pub record IsRouteOf (w : Written S) (r : Route lib S Method ℕ) : Type 0 where
    pub payload : r.payload ≡ w.idx
    pub methods : r.methods ≡ w.methods
    pub text : Str
    pub expression : IsExpression w.text text
    pub compiled : lib.compile text ≡ some r.regex

  -- The routes of a builder grow by routes for these.
  abbrev Grows : Builder lib S Method ℕ → List (Written S) → Builder lib S Method ℕ → Type 0
  Grows b ws b' =
      (rs : List (Route lib S Method ℕ)) × (b'.routes ≡ b.routes ++ rs) × AllPairs IsRouteOf ws rs

  Grows-nil : (b : Builder lib S Method ℕ) → Grows b [] b
  Grows-nil b = ([], sym (append-nil b.routes), tt)

  Grows-append :
      (b c d : Builder lib S Method ℕ) (ws vs : List (Written S))
      → Grows b ws c
      → Grows c vs d
      → Grows b (ws ++ vs) d
  Grows-append b c d ws vs (rs, e, all) (qs, e', all') = (
    rs ++ qs,
    e' ∙ ap (λ x. x ++ qs) e ∙ append_assoc b.routes rs qs,
    AllPairs-append IsRouteOf ws vs rs qs all all',
  )

  add_re-Grows :
      (s r text : Str) (methods : Option S) (idx : ℕ) (b b' : Builder lib S Method ℕ)
      → bytes "^(?s)" ++ drop 1 s ≡ text
      → IsExpression r text
      → add_re lib S Method ℕ s methods idx b ≡ ok b'
      → Grows b (record { idx = idx; methods = methods; text = r } ∷ []) b'
  unfolding add_re
  add_re-Grows s r text methods idx b b' spelt is e =
      elim (Option-cases (lib.compile (bytes "^(?s)" ++ drop 1 s))) [
        | inl bad ↦ absurd (ground arith)
        | inr (regex, found) ↦
            let new : Route lib S Method ℕ = record {
              regex = regex;
              methods = methods;
              payload = idx;
            } in
            let same : record { routes = b.routes ++ new ∷ [] } ≡ b' = ground arith in
            (
              new ∷ [],
              ap (λ c. c.routes) (sym same),
              (
                record {
                  payload = refl;
                  methods = refl;
                  text = text;
                  expression = is;
                  compiled = ap lib.compile (sym spelt) ∙ found;
                },
                tt,
              ),
            )
      ]

  add-Grows :
      (r : Str) (methods : Option S) (idx : ℕ) (b b' : Builder lib S Method ℕ)
      → add lib S Method ℕ r methods idx b ≡ returned (ok b')
      → Grows b (written_of idx methods (r ∷ [])) b'
  unfolding add
  add-Grows [] methods idx b b' e =
      let same : b ≡ b' = ground arith in subst (Grows b []) same (Grows-nil b)
  add-Grows (c ∷ r) methods idx b b' e = elim (Bool-cases (starts_with (c ∷ r) (bytes "^"))) [
    | inl regex ↦
        let is : c ≡ b'^' = ground arith in
        rw regex (
          add_re-Grows (c ∷ r) (c ∷ r) (bytes "^(?s)" ++ r) methods idx b b' refl
            (subst (λ x. IsExpression (x ∷ r) (bytes "^(?s)" ++ r)) (sym is) (regular r))
            (ground arith))
    | inr plain ↦ elim (Bool-cases (starts_with (c ∷ r) (bytes "/"))) [
      | inl slash ↦
          let is : c ≡ b'/' = ground arith in
          let (re, turned, added) =
            >>=-eq-returned (translate lib (c ∷ r)) _ (rw (plain, slash) at e) in
          rw (plain, slash)
            (add_re-Grows (bytes "^" ++ re ++ bytes "$") (c ∷ r) (bytes "^(?s)" ++ re ++ bytes "$")
              methods idx b b' refl
              (subst (λ x. IsExpression (x ∷ r) (bytes "^(?s)" ++ re ++ bytes "$")) (sym is)
                (translated r re (ap (λ x. translate lib (x ∷ r)) (sym is) ∙ turned)))
              (ground arith))
      | inr other ↦
          let same : b ≡ b' = ground arith in
          rw (plain, other) (subst (Grows b []) same (Grows-nil b))
    ]
  ]

  written_of-cons :
      (idx : ℕ) (methods : Option S) (r : Str) (rs : List Str)
      → written_of idx methods (r ∷ []) ++ written_of idx methods rs
        ≡ written_of idx methods (r ∷ rs)
  written_of-cons idx methods r rs = elim (Bool-cases (is_taken r)) [
    | inl taken ↦ rw taken refl
    | inr left ↦ rw left refl
  ]

  add_routes-Grows :
      (idx : ℕ) (methods : Option S) (rs : List Str) (b b' : Builder lib S Method ℕ)
      → add_routes lib S Method idx methods rs b ≡ returned (ok b')
      → Grows b (written_of idx methods rs) b'
  unfolding add_routes
  add_routes-Grows idx methods [] b b' e =
      let same : b ≡ b' = ground arith in subst (Grows b []) same (Grows-nil b)
  add_routes-Grows idx methods (r ∷ rs) b b' e =
      let (c, added, rest) = or_return-eq-ok (add lib S Method ℕ r methods idx b) _ _ e in
      subst (λ ws. Grows b ws b') (written_of-cons idx methods r rs)
        (Grows-append b c b' (written_of idx methods (r ∷ [])) (written_of idx methods rs)
          (add-Grows r methods idx b c added) (add_routes-Grows idx methods rs c b' rest))

  add_locations-Grows :
      (idx : ℕ) (ls : List (Location S)) (b b' : Builder lib S Method ℕ)
      → add_locations lib S Method idx ls b ≡ returned (ok b')
      → Grows b (written idx ls) b'
  unfolding add_locations
  add_locations-Grows idx [] b b' e =
      let same : b ≡ b' = ground arith in subst (Grows b []) same (Grows-nil b)
  add_locations-Grows idx (l ∷ ls) b b' e =
      let (c, added, rest) =
        or_return-eq-ok (add_routes lib S Method idx l.methods l.route b) _ _ e in
      Grows-append b c b' (written_of idx l.methods l.route) (written (suc idx) ls)
        (add_routes-Grows idx l.methods l.route b c added)
        (add_locations-Grows (suc idx) ls c b' rest)

  -- If `build_routes` succeeds, the routes of the router are those of the locations that start with
  -- `^` or `/`, one by one in the order of the file, first by location and then by route. Each has
  -- its location's index and methods, and an expression compiled from its text: with the flag (?s),
  -- from a text with `^` itself, and otherwise from its translation between `^` and `$`.
  pub build_routes_lem :
      (config : Config S) (router : Router lib S Method ℕ)
      → build_routes lib S Method config ≡ returned (ok router)
      → AllPairs IsRouteOf (written 0 config.location) router.routes
  unfolding build_routes builder build
  build_routes_lem config router e =
      let (b, added, built) =
        or_return-eq-ok (add_locations lib S Method 0 config.location (builder lib S Method ℕ)) _ _
          e in
      let same : b.routes ≡ router.routes = ground arith in
      let (rs, grown, all) =
        add_locations-Grows 0 config.location (builder lib S Method ℕ) b added in
      subst (AllPairs IsRouteOf (written 0 config.location)) (sym grown ∙ same) all
