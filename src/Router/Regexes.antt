-- ===== src/Router/Regexes.antt =====
-- The crate regex, as router.rs uses it: a parameter, with what its documentation says of a set of
-- regular expressions.
use webdav_server_rs.Prelude.{
  ℕ, suc, ◌≡◌, Bool, Option, some, List, [], ◌∷◌, map, Str, if◌then◌else◌,
}

-- A match of a group: its range in the text, and the matched bytes.
pub record Match : Type 0 where
  pub start : ℕ
  pub end : ℕ
  pub text : Str

-- The positions, from `idx` on, at which a test holds.
abbrev pub positions : {A : Type 0} → (A → Bool) → ℕ → List A → List ℕ
positions p idx [] = []
positions p idx (x ∷ xs) = if p x then idx ∷ positions p (suc idx) xs else positions p (suc idx) xs

pub record RegexCrate : Type 1 where
  pub Regex : Type 0
  pub RegexSet : Type 0
  pub Captures : Type 0
  pub Error : Type 0
  -- `regex::escape`
  pub escape : Str → Str
  -- `Regex::new`: `none` in place of the error that the second function gives.
  pub compile : Str → Option Regex
  pub compile_error : Str → Error
  pub as_str : Regex → Str
  pub replace_all : Regex → Str → Str → Str
  pub captures : Regex → Str → Option Captures
  -- `Captures::name`
  pub group : Captures → Str → Option Match
  -- `RegexSet::new` and `RegexSet::matches`
  pub compile_set : List Str → Option RegexSet
  pub set_matches : RegexSet → Str → List ℕ
  -- A set reports the expressions that match, in the order of the set.
  pub is_match : Regex → Str → Bool
  pub set_matches_lem :
      (rs : List Regex) (set : RegexSet) (path : Str)
      → compile_set (map as_str rs) ≡ some set
      → set_matches set path ≡ positions (λ r. is_match r path) 0 rs
