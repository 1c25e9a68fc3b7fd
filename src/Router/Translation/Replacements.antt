-- ===== src/Router/Translation/Replacements.antt =====
-- router.rs: the text of a route expression through the three replacements in `Builder::add`.
use webdav_server_rs.Prelude.{
  nat_eq, str_eq, ℕ, ◌≡◌, ◌≢◌, refl, Bool, true, false, ◌&&◌, Bool-cases, inl, inr, List, [], ◌∷◌,
  ◌++◌, All, Str, bytes, ltb, arith, IsAscii,
}
use webdav_server_rs.Router.Translation.{
  alnum, meta, escaped, IsName, Replaced, ended, swapped, keeps, Piece, literal, param, splat_param,
  opens, closes, is_flat, with_splats, Parenthesised, finished, stays, opened, closed, kept, print,
  expression, plain, IsRoute, marked, with_params, marked-IsApart, with_params-IsApart, escaped-All,
}

abbrev holds : (ℕ → Bool) → Str → Bool
holds p [] = true
holds p (c ∷ s) = p c && holds p s

holds-All : (p : ℕ → Bool) (s : Str) → holds p s ≡ true → All (λ c. p c ≡ true) s
holds-All p [] h = tt
holds-All p (c ∷ s) h = (ground arith, holds-All p s (ground arith))

All-map : {P Q : ℕ → Type 0} (s : Str) → ((c : ℕ) → P c → Q c) → All P s → All Q s
All-map [] f all = tt
All-map (c ∷ s) f all = (f c all.0, All-map s f all.1)

IsAscii-append : (s t : Str) → IsAscii s → IsAscii t → IsAscii (s ++ t)
IsAscii-append [] t all all' = all'
IsAscii-append (c ∷ s) t all all' = (all.0, IsAscii-append s t all.1 all')

ascii-unmarked : (s : Str) → IsAscii s → All (λ c. c ≢ 0xee) s
ascii-unmarked s = All-map s (λ c h. ground arith)

alnum-IsAscii : (s : Str) → All (λ c. alnum c ≡ true) s → IsAscii s
alnum-IsAscii s = All-map s (λ c h. ground arith)

plain-IsAscii : (s : Str) → All (λ c. plain c ≡ true) s → IsAscii s
plain-IsAscii s = All-map s (λ c h. ground arith)

escaped-IsAscii : (s : Str) → IsAscii s → IsAscii (escaped s)
escaped-IsAscii [] all = tt
escaped-IsAscii (c ∷ s) all = elim (Bool-cases (meta c)) [
  | inl y ↦ rw y (refl, (all.0, escaped-IsAscii s all.1))
  | inr n ↦ rw n (all.0, escaped-IsAscii s all.1)
]

open-IsAscii : IsAscii (bytes "(?P<")
open-IsAscii = holds-All (λ c. ltb c 0x80) (bytes "(?P<") refl

param-IsAscii : IsAscii (bytes ">[^/]*)")
param-IsAscii = holds-All (λ c. ltb c 0x80) (bytes ">[^/]*)") refl

splat-IsAscii : IsAscii (bytes ">.*)")
splat-IsAscii = holds-All (λ c. ltb c 0x80) (bytes ">.*)") refl

name-IsAscii : (n : Str) → IsName n → IsAscii n
name-IsAscii n h = alnum-IsAscii n h.1

pub print-IsAscii : (ps : List Piece) → IsRoute ps → IsAscii (print ps)
print-IsAscii [] h = tt
print-IsAscii (literal s ∷ ps) h =
    IsAscii-append s (print ps) (plain-IsAscii s h.0) (print-IsAscii ps h.1)
print-IsAscii (param n ∷ ps) h =
    (refl, IsAscii-append n (print ps) (name-IsAscii n h.0) (print-IsAscii ps h.2))
print-IsAscii (splat_param n ∷ ps) h =
    (refl, IsAscii-append n (print ps) (name-IsAscii n h.0) (print-IsAscii ps h.2))
print-IsAscii (opens ∷ ps) h = (refl, print-IsAscii ps h)
print-IsAscii (closes ∷ ps) h = (refl, print-IsAscii ps h)

-- `:name` becomes a group that ends at a slash.
pub params_replaced :
    (ps : List Piece)
    → IsRoute ps
    → Replaced b':' [] (bytes "(?P<") (bytes ">[^/]*)") (marked ps) (with_params ps)
params_replaced [] h = ended
params_replaced (literal s ∷ ps) h =
    keeps (escaped s) (marked ps) (with_params ps)
      (escaped-All b':' s (ground arith) (All-map s (λ c p. ground arith) h.0))
      (params_replaced ps h.1)
params_replaced (param n ∷ ps) h =
    swapped n (marked ps) (with_params ps) h.0 (marked-IsApart ps h.1) (params_replaced ps h.2)
params_replaced (splat_param n ∷ ps) h =
    keeps (0xee ∷ 0x80 ∷ 0x81 ∷ n) (marked ps) (with_params ps)
      (ground arith, (ground arith, (ground arith, All-map n (λ c p. ground arith) h.0.1)))
      (params_replaced ps h.2)
params_replaced (opens ∷ ps) h =
    keeps (0xee ∷ 0x80 ∷ 0x82 ∷ []) (marked ps) (with_params ps)
      (ground arith, (ground arith, (ground arith, tt))) (params_replaced ps h)
params_replaced (closes ∷ ps) h =
    keeps (0xee ∷ 0x80 ∷ 0x83 ∷ []) (marked ps) (with_params ps)
      (ground arith, (ground arith, (ground arith, tt))) (params_replaced ps h)

-- `*name` becomes a group that goes on over slashes.
pub splats_replaced :
    (ps : List Piece)
    → IsRoute ps
    → Replaced 0xee
        (0x80 ∷ 0x81 ∷ [])
        (bytes "(?P<")
        (bytes ">.*)")
        (with_params ps)
        (with_splats ps)
splats_replaced [] h = ended
splats_replaced (literal s ∷ ps) h =
    keeps (escaped s) (with_params ps) (with_splats ps)
      (ascii-unmarked (escaped s) (escaped-IsAscii s (plain-IsAscii s h.0)))
      (splats_replaced ps h.1)
splats_replaced (param n ∷ ps) h =
    keeps (bytes "(?P<") (n ++ (bytes ">[^/]*)" ++ with_params ps))
      (n ++ (bytes ">[^/]*)" ++ with_splats ps)) (ascii-unmarked (bytes "(?P<") open-IsAscii)
      (keeps n (bytes ">[^/]*)" ++ with_params ps) (bytes ">[^/]*)" ++ with_splats ps)
        (ascii-unmarked n (name-IsAscii n h.0))
        (keeps (bytes ">[^/]*)") (with_params ps) (with_splats ps)
          (ascii-unmarked (bytes ">[^/]*)") param-IsAscii) (splats_replaced ps h.2)))
splats_replaced (splat_param n ∷ ps) h =
    swapped n (with_params ps) (with_splats ps) h.0 (with_params-IsApart ps h.1)
      (splats_replaced ps h.2)
splats_replaced (opens ∷ ps) h =
    kept 0xee (0x80 ∷ 0x82 ∷ with_params ps) (0x80 ∷ 0x82 ∷ with_splats ps) refl (
      keeps (0x80 ∷ 0x82 ∷ []) (with_params ps) (with_splats ps) (ground arith, (ground arith, tt))
        (splats_replaced ps h))
splats_replaced (closes ∷ ps) h =
    kept 0xee (0x80 ∷ 0x83 ∷ with_params ps) (0x80 ∷ 0x83 ∷ with_splats ps) refl (
      keeps (0x80 ∷ 0x83 ∷ []) (with_params ps) (with_splats ps) (ground arith, (ground arith, tt))
        (splats_replaced ps h))

stay :
    (inside : Bool) (xs s r : Str)
    → IsAscii xs
    → Parenthesised inside s r
    → Parenthesised inside (xs ++ s) (xs ++ r)
stay inside [] s r all h = h
stay inside (c ∷ xs) s r all h =
    stays inside c (xs ++ s) (xs ++ r) all.0 (stay inside xs s r all.1 h)

-- The three texts of a parameter.
stay_group :
    (inside : Bool) (n close s r : Str)
    → IsName n
    → IsAscii close
    → Parenthesised inside s r
    → Parenthesised inside
        (bytes "(?P<" ++ (n ++ (close ++ s)))
        (bytes "(?P<" ++ (n ++ (close ++ r)))
stay_group inside n close s r name h rest =
    stay inside (bytes "(?P<") (n ++ (close ++ s)) (n ++ (close ++ r)) open-IsAscii
      (stay inside n (close ++ s) (close ++ r) (name-IsAscii n name) (stay inside close s r h rest))

-- A part between parentheses becomes an optional group.
pub options_replaced :
    (inside : Bool) (ps : List Piece)
    → IsRoute ps
    → is_flat inside ps ≡ true
    → Parenthesised inside (with_splats ps) (expression ps)
options_replaced true [] h flat = absurd (ground arith)
options_replaced false [] h flat = finished
options_replaced inside (literal s ∷ ps) h flat =
    stay inside (escaped s) (with_splats ps) (expression ps)
      (escaped-IsAscii s (plain-IsAscii s h.0)) (options_replaced inside ps h.1 flat)
options_replaced inside (param n ∷ ps) h flat =
    stay_group inside n (bytes ">[^/]*)") (with_splats ps) (expression ps) h.0 param-IsAscii
      (options_replaced inside ps h.2 flat)
options_replaced inside (splat_param n ∷ ps) h flat =
    stay_group inside n (bytes ">.*)") (with_splats ps) (expression ps) h.0 splat-IsAscii
      (options_replaced inside ps h.2 flat)
options_replaced true (opens ∷ ps) h flat = absurd (ground arith)
options_replaced false (opens ∷ ps) h flat =
    opened (with_splats ps) (expression ps) (options_replaced true ps h flat)
options_replaced true (closes ∷ ps) h flat =
    closed (with_splats ps) (expression ps) (options_replaced false ps h flat)
options_replaced false (closes ∷ ps) h flat = absurd (ground arith)

pub Parenthesised-IsAscii : {inside : Bool} {s r : Str} → Parenthesised inside s r → IsAscii r
Parenthesised-IsAscii finished = tt
Parenthesised-IsAscii (stays inside c s r small rest) = (small, Parenthesised-IsAscii rest)
Parenthesised-IsAscii (opened s r rest) = (refl, Parenthesised-IsAscii rest)
Parenthesised-IsAscii (closed s r rest) = (refl, (refl, Parenthesised-IsAscii rest))
