-- ===== src/Router/Translation.antt =====
-- router.rs: what `Builder::add` makes of a route expression.
pub mod Passes
pub mod Replacements
pub mod Routes
mod Tests
use webdav_server_rs.Prelude.{
  nat_eq, str_eq, ℕ, zero, suc, ◌≡◌, ◌≢◌, refl, sym, ap, ◌∙◌, subst, Bool, true, false, not, ◌&&◌,
  ◌||◌, Bool-cases, inl, inr, Option, none, some, List, [], ◌∷◌, ◌++◌, map, append_assoc, All, Str,
  bytes, ltb, leb, ◌==◌, if◌then◌else◌, arith, IsAscii,
}
use webdav_server_rs.Router.{splat_char, protect}

-- [a-zA-Z0-9]
abbrev pub alnum : ℕ → Bool
alnum c = (leb b'a' c && leb c b'z') || (leb b'A' c && leb c b'Z') || (leb b'0' c && leb c b'9')

-- A metacharacter of the crate regex.
abbrev pub meta : ℕ → Bool
meta c =
    c == b'\\'
    || c == b'.'
    || c == b'+'
    || c == b'*'
    || c == b'?'
    || c == b'('
    || c == b')'
    || c == b'|'
    || c == b'['
    || c == b']'
    || c == b'{'
    || c == b'}'
    || c == b'^'
    || c == b'$'
    || c == b'#'
    || c == b'&'
    || c == b'-'
    || c == b'~'

abbrev pub escape_char : ℕ → Str
escape_char c = if meta c then b'\\' ∷ c ∷ [] else c ∷ []

abbrev pub escaped : Str → Str
escaped [] = []
escaped (c ∷ s) = escape_char c ++ escaped s

abbrev pub begins_alnum : Str → Bool
begins_alnum [] = false
begins_alnum (c ∷ s) = alnum c

-- What is behind a prefix.
abbrev pub strip : Str → Str → Option Str
strip [] s = some s
strip (m ∷ ms) [] = none
strip (m ∷ ms) (c ∷ s) = if m == c then strip ms s else none

-- Whether a text begins with a mark and a name.
abbrev pub begins_name : Str → Str → Bool
begins_name mark s = elim (strip mark s) [ none ↦ false | some t ↦ begins_alnum t ]

abbrev pub IsName : Str → Type 0
IsName n = (begins_alnum n ≡ true) × All (λ c. alnum c ≡ true) n

-- The replacement, in a text, of each mark with a name behind it, which goes as far as it can,
-- from the left to the right.
pub data Replaced (m : ℕ) (ms left right : Str) : Str → Str → Type 0 where
  ended : Replaced m ms left right [] []
  kept :
      (c : ℕ) (s r : Str)
      → begins_name (m ∷ ms) (c ∷ s) ≡ false
      → Replaced m ms left right s r
      → Replaced m ms left right (c ∷ s) (c ∷ r)
  swapped :
      (n s r : Str)
      → IsName n
      → begins_alnum s ≡ false
      → Replaced m ms left right s r
      → Replaced m ms left right (m ∷ (ms ++ (n ++ s))) (left ++ (n ++ (right ++ r)))

-- The replacement of parentheses, in their private-use characters, in ASCII text: each is closed
-- before the next one opens.
pub data Parenthesised : Bool → Str → Str → Type 0 where
  finished : Parenthesised false [] []
  stays :
      (inside : Bool) (c : ℕ) (s r : Str)
      → ltb c 0x80 ≡ true
      → Parenthesised inside s r
      → Parenthesised inside (c ∷ s) (c ∷ r)
  opened :
      (s r : Str) → Parenthesised true s r → Parenthesised false (0xee ∷ 0x80 ∷ 0x82 ∷ s) (b'(' ∷ r)
  closed :
      (s r : Str)
      → Parenthesised false s r
      → Parenthesised true (0xee ∷ 0x80 ∷ 0x83 ∷ s) (b')' ∷ b'?' ∷ r)

-- The parts of a route expression: text, `:name`, `*name`, `(` and `)`.
pub data Piece : Type 0 where
  literal : Str → Piece
  param : Str → Piece
  splat_param : Str → Piece
  opens : Piece
  closes : Piece

abbrev pub print : List Piece → Str
print [] = []
print (literal s ∷ ps) = s ++ print ps
print (param n ∷ ps) = b':' ∷ (n ++ print ps)
print (splat_param n ∷ ps) = b'*' ∷ (n ++ print ps)
print (opens ∷ ps) = b'(' ∷ print ps
print (closes ∷ ps) = b')' ∷ print ps

-- The regular expression: a parameter is a group of its name, and a part between parentheses is
-- an optional group.
abbrev pub expression : List Piece → Str
expression [] = []
expression (literal s ∷ ps) = escaped s ++ expression ps
expression (param n ∷ ps) = bytes "(?P<" ++ (n ++ (bytes ">[^/]*)" ++ expression ps))
expression (splat_param n ∷ ps) = bytes "(?P<" ++ (n ++ (bytes ">.*)" ++ expression ps))
expression (opens ∷ ps) = b'(' ∷ expression ps
expression (closes ∷ ps) = b')' ∷ b'?' ∷ expression ps

-- A character of a literal part: ASCII, and none of `:`, `*`, `(` and `)`.
abbrev pub plain : ℕ → Bool
plain c = ltb c 0x80 && not (c == b':' || c == b'*' || c == b'(' || c == b')')

-- What follows a name does not go on with it.
abbrev pub IsApart : List Piece → Type 0
IsApart [] = Unit
IsApart (literal [] ∷ ps) = IsApart ps
IsApart (literal (c ∷ s) ∷ ps) = alnum c ≡ false
IsApart (param n ∷ ps) = Unit
IsApart (splat_param n ∷ ps) = Unit
IsApart (opens ∷ ps) = Unit
IsApart (closes ∷ ps) = Unit

abbrev pub IsRoute : List Piece → Type 0
IsRoute [] = Unit
IsRoute (literal s ∷ ps) = All (λ c. plain c ≡ true) s × IsRoute ps
IsRoute (param n ∷ ps) = IsName n × IsApart ps × IsRoute ps
IsRoute (splat_param n ∷ ps) = IsName n × IsApart ps × IsRoute ps
IsRoute (opens ∷ ps) = IsRoute ps
IsRoute (closes ∷ ps) = IsRoute ps

-- Whether each parenthesis is closed before the next one opens, from inside one or from outside.
abbrev pub is_flat : Bool → List Piece → Bool
is_flat inside [] = not inside
is_flat inside (literal s ∷ ps) = is_flat inside ps
is_flat inside (param n ∷ ps) = is_flat inside ps
is_flat inside (splat_param n ∷ ps) = is_flat inside ps
is_flat inside (opens ∷ ps) = not inside && is_flat true ps
is_flat inside (closes ∷ ps) = inside && is_flat false ps

-- The text after `*`, `(` and `)` are replaced by private-use characters, and the rest is escaped.
abbrev pub marked : List Piece → Str
marked [] = []
marked (literal s ∷ ps) = escaped s ++ marked ps
marked (param n ∷ ps) = b':' ∷ (n ++ marked ps)
marked (splat_param n ∷ ps) = 0xee ∷ 0x80 ∷ 0x81 ∷ (n ++ marked ps)
marked (opens ∷ ps) = 0xee ∷ 0x80 ∷ 0x82 ∷ marked ps
marked (closes ∷ ps) = 0xee ∷ 0x80 ∷ 0x83 ∷ marked ps

-- The text after the first replacement.
abbrev pub with_params : List Piece → Str
with_params [] = []
with_params (literal s ∷ ps) = escaped s ++ with_params ps
with_params (param n ∷ ps) = bytes "(?P<" ++ (n ++ (bytes ">[^/]*)" ++ with_params ps))
with_params (splat_param n ∷ ps) = 0xee ∷ 0x80 ∷ 0x81 ∷ (n ++ with_params ps)
with_params (opens ∷ ps) = 0xee ∷ 0x80 ∷ 0x82 ∷ with_params ps
with_params (closes ∷ ps) = 0xee ∷ 0x80 ∷ 0x83 ∷ with_params ps

-- The text after the second one.
abbrev pub with_splats : List Piece → Str
with_splats [] = []
with_splats (literal s ∷ ps) = escaped s ++ with_splats ps
with_splats (param n ∷ ps) = bytes "(?P<" ++ (n ++ (bytes ">[^/]*)" ++ with_splats ps))
with_splats (splat_param n ∷ ps) = bytes "(?P<" ++ (n ++ (bytes ">.*)" ++ with_splats ps))
with_splats (opens ∷ ps) = 0xee ∷ 0x80 ∷ 0x82 ∷ with_splats ps
with_splats (closes ∷ ps) = 0xee ∷ 0x80 ∷ 0x83 ∷ with_splats ps

escaped-not-alnum :
    (c : ℕ) (s t : Str) → alnum c ≡ false → begins_alnum (escaped (c ∷ s) ++ t) ≡ false
escaped-not-alnum c s t h = elim (Bool-cases (meta c)) [ inl y ↦ rw y refl | inr n ↦ rw n h ]

marked-IsApart : (ps : List Piece) → IsApart ps → begins_alnum (marked ps) ≡ false
marked-IsApart [] h = refl
marked-IsApart (literal [] ∷ ps) h = marked-IsApart ps h
marked-IsApart (literal (c ∷ s) ∷ ps) h = escaped-not-alnum c s (marked ps) h
marked-IsApart (param n ∷ ps) h = refl
marked-IsApart (splat_param n ∷ ps) h = refl
marked-IsApart (opens ∷ ps) h = refl
marked-IsApart (closes ∷ ps) h = refl

with_params-IsApart : (ps : List Piece) → IsApart ps → begins_alnum (with_params ps) ≡ false
with_params-IsApart [] h = refl
with_params-IsApart (literal [] ∷ ps) h = with_params-IsApart ps h
with_params-IsApart (literal (c ∷ s) ∷ ps) h = escaped-not-alnum c s (with_params ps) h
with_params-IsApart (param n ∷ ps) h = refl
with_params-IsApart (splat_param n ∷ ps) h = refl
with_params-IsApart (opens ∷ ps) h = refl
with_params-IsApart (closes ∷ ps) h = refl

-- Text without the first byte of the mark is kept.
keeps :
    {m : ℕ} {ms left right : Str} (xs s r : Str)
    → All (λ c. c ≢ m) xs
    → Replaced m ms left right s r
    → Replaced m ms left right (xs ++ s) (xs ++ r)
keeps [] s r all h = h
keeps {m} {ms} (c ∷ xs) s r all h =
    kept c (xs ++ s) (xs ++ r) (differs m ms c (xs ++ s) all.0) (keeps xs s r all.1 h)
  where
    differs : (m : ℕ) (ms : Str) (c : ℕ) (s : Str) → c ≢ m → begins_name (m ∷ ms) (c ∷ s) ≡ false
    differs m ms c s ne =
        let no : (m == c) ≡ false = ground arith in rw (begins_name, strip, no) refl

escaped-All : (m : ℕ) (s : Str) → b'\\' ≢ m → All (λ c. c ≢ m) s → All (λ c. c ≢ m) (escaped s)
escaped-All m [] other all = tt
escaped-All m (c ∷ s) other all = elim (Bool-cases (meta c)) [
  | inl y ↦ rw y (other, (all.0, escaped-All m s other all.1))
  | inr n ↦ rw n (all.0, escaped-All m s other all.1)
]
