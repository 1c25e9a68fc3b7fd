-- ===== src/Router/Translation/Tests.antt =====
-- A replacement for the three expressions of router.rs, and the theorem on routes applied to it.
use webdav_server_rs.Prelude.{
  nat_eq, str_eq, ℕ, zero, suc, ◌≤◌, ◌≡◌, refl, ap, Bool, true, false, if◌then◌else◌, Option, none,
  some, List, [], ◌∷◌, ◌++◌, All, Str, bytes, ◌==◌, eq_refl, arith, length, length-append, returned,
  ltb,
}
use webdav_server_rs.Router
use webdav_server_rs.Router.{Builder, colon, maybe, add, add_re, builder}
use webdav_server_rs.Router.Regexes.{RegexCrate}
use webdav_server_rs.Router.Translation.{
  alnum, begins_alnum, begins_name, strip, escaped, IsName, Replaced, ended, kept, swapped,
  Parenthesised, finished, stays, opened, closed, Piece, literal, param, splat_param, opens, closes,
  IsRoute,
}
use webdav_server_rs.Router.Translation.Routes.{IsDocumented, add-expression}
use webdav_server_rs.Sample

program : Unit {0}
unfolding add
program = tt

-- A name, and what is behind it.
abbrev name_of : Str → Str × Str
name_of [] = ([], [])
name_of (c ∷ s) = let (n, rest) = name_of s in if alnum c then (c ∷ n, rest) else ([], c ∷ s)

abbrev found : Str → Str → Option (Str × Str)
found mark s = elim (strip mark s) [
  | none ↦ none
  | some t ↦ if begins_alnum t then some (name_of t) else none
]

abbrev scan : ℕ → ℕ → Str → Str → Str → Str → Str
scan zero m ms left right s = []
scan (suc k) m ms left right [] = []
scan (suc k) m ms left right (c ∷ s) = elim (found (m ∷ ms) (c ∷ s)) [
  | none ↦ c ∷ scan k m ms left right s
  | some x ↦ left ++ (x.0 ++ (right ++ scan k m ms left right x.1))
]

abbrev parenthesise : Str → Str
parenthesise [] = []
parenthesise (c ∷ s) =
    let rest = parenthesise s in
    if ltb c 0x80
    then c ∷ rest
    else if c == 0x82
    then b'(' ∷ rest
    else if c == 0x83
    then b')' ∷ b'?' ∷ rest
    else rest

name_of-append :
    (n s : Str) → All (λ c. alnum c ≡ true) n → begins_alnum s ≡ false → name_of (n ++ s) ≡ (n, s)
name_of-append [] [] all h = refl
name_of-append [] (c ∷ s) all h = rw h refl
name_of-append (c ∷ n) s all h = rw (name_of-append n s all.1 h, all.0) refl

strip-append : (ms s : Str) → strip ms (ms ++ s) ≡ some s
strip-append [] s = refl
strip-append (m ∷ ms) s = rw (eq_refl m) (strip-append ms s)

begins-append : (n s : Str) → begins_alnum n ≡ true → begins_alnum (n ++ s) ≡ true
begins-append [] s h = absurd (ground arith)
begins-append (c ∷ n) s h = h

found-name :
    (ms n s : Str) → IsName n → begins_alnum s ≡ false → found ms (ms ++ (n ++ s)) ≡ some (n, s)
found-name ms n s name h =
    rw (found, strip-append ms (n ++ s), begins-append n s name.0, name_of-append n s name.1 h) refl

found-none : (ms s : Str) → begins_name ms s ≡ false → found ms s ≡ none
found-none ms s h = go (strip ms s) h
  where
    go :
        (o : Option Str)
        → (elim o [ none ↦ false | some t ↦ begins_alnum t ]) ≡ false
        → (elim o as (λ _. Option (Str × Str)) [
          | none ↦ none
          | some t ↦ if begins_alnum t then some (name_of t) else none
        ])
          ≡ none
    go none h = refl
    go (some t) h = rw h refl

scan-Replaced :
    {m : ℕ} {ms left right s r : Str} (k : ℕ)
    → length s ≤ k
    → Replaced m ms left right s r
    → scan k m ms left right s ≡ r
scan-Replaced zero short ended = refl
scan-Replaced (suc k) short ended = refl
scan-Replaced zero short (kept c s r nameless rest) = absurd (omega arith)
scan-Replaced {m} {ms} (suc k) short (kept c s r nameless rest) =
    rw (scan, found-none (m ∷ ms) (c ∷ s) nameless)
      (ap (◌∷◌ c) (scan-Replaced k (omega arith) rest))
scan-Replaced zero short (swapped n s r name apart rest) = absurd (omega arith)
scan-Replaced {m} {ms} {left} {right} (suc k) short (swapped n s r name apart rest) =
    let small : length s ≤ k = omega (arith, length-append ms (n ++ s), length-append n s) in
    rw (scan, found-name (m ∷ ms) n s name apart)
      (ap (λ x. left ++ (n ++ (right ++ x))) (scan-Replaced k small rest))

parenthesise-Parenthesised :
    {inside : Bool} {s r : Str} → Parenthesised inside s r → parenthesise s ≡ r
parenthesise-Parenthesised finished = refl
parenthesise-Parenthesised (stays inside c s r small rest) =
    rw small (ap (◌∷◌ c) (parenthesise-Parenthesised rest))
parenthesise-Parenthesised (opened s r rest) = ap (◌∷◌ b'(') (parenthesise-Parenthesised rest)
parenthesise-Parenthesised (closed s r rest) =
    ap (λ x. b')' ∷ b'?' ∷ x) (parenthesise-Parenthesised rest)

abbrev replacing : RegexCrate
replacing = record Sample.literal {
  escape = escaped;
  replace_all = λ re s t.
      if re == colon
      then scan (length s) b':' [] (bytes "(?P<") (bytes ">[^/]*)") s
      else if re == Router.splat
      then scan (length s) 0xee (0x80 ∷ 0x81 ∷ []) (bytes "(?P<") (bytes ">.*)") s
      else parenthesise s;
}

replacing-IsDocumented : IsDocumented replacing
replacing-IsDocumented = record {
  escape_lem = λ s. refl;
  colon_re = colon;
  colon_compiled = refl;
  colon_lem = λ s r h. scan-Replaced (length s) (omega arith) h;
  splat_re = Router.splat;
  splat_compiled = refl;
  splat_lem = λ s r h. scan-Replaced (length s) (omega arith) h;
  maybe_re = maybe;
  maybe_compiled = refl;
  maybe_lem = λ s r h. parenthesise-Parenthesised h;
}

-- /.dav(/:user/*path)
abbrev pieces : List Piece
pieces =
    literal (bytes "/.dav")
    ∷ opens
    ∷ literal (bytes "/")
    ∷ param (bytes "user")
    ∷ literal (bytes "/")
    ∷ splat_param (bytes "path")
    ∷ closes
    ∷ []

pieces-IsRoute : IsRoute pieces
pieces-IsRoute = ground arith

add-expression_example :
    add replacing
      (List Str)
      Str
      ℕ
      (bytes "/.dav(/:user/*path)")
      none
      1
      (builder replacing (List Str) Str ℕ)
    ≡ returned (
        add_re replacing
          (List Str)
          Str
          ℕ
          (bytes "^/\\.dav(/(?P<user>[^/]*)/(?P<path>.*))?$")
          none
          1
          (builder replacing (List Str) Str ℕ))
add-expression_example =
    add-expression replacing (List Str) Str ℕ pieces none 1 (builder replacing (List Str) Str ℕ)
      replacing-IsDocumented pieces-IsRoute refl refl
