-- ===== src/Prelude/Split.antt =====
-- `str::split` at a character, and `str::trim`.
use Prim.Native.Nat.{ℕ}
use mathlib.Core.Path.{◌≡◌, refl, ap, subst₂}
use mathlib.Core.Bool.{Bool, ◌||◌, ◌&&◌}
use mathlib.Core.List.{List, [], ◌∷◌, ◌++◌, reverse}
use mathlib.Core.Logic.{◌⊎◌, ◌≢◌, inl, inr}
use native.Mathlib.Omega.{arith}
use webdav_server_rs.Prelude.Tests.{leb, nat_beq, nat_beq_iff, Bool-cases, if◌then◌else◌}
use webdav_server_rs.Prelude.Text.{Str}
use webdav_server_rs.Prelude.Lists.{All}
use webdav_server_rs.Prelude.Utf8.{chars, collect}

-- A text put in front of the first of some parts.
abbrev pub extend : ℕ → List Str → List Str
extend c [] = (c ∷ []) ∷ []
extend c (part ∷ parts) = (c ∷ part) ∷ parts

-- `s.split(sep)` for an ASCII separator.
unfoldable pub split : ℕ → Str → List Str
split sep [] = [] ∷ []
split sep (c ∷ s) = if nat_beq c sep then [] ∷ split sep s else extend c (split sep s)

-- `char::is_whitespace`
unfoldable pub is_whitespace : ℕ → Bool
is_whitespace c =
    (leb 9 c && leb c 13)
    || nat_beq c 32
    || nat_beq c 0x85
    || nat_beq c 0xa0
    || nat_beq c 0x1680
    || (leb 0x2000 c && leb c 0x200a)
    || nat_beq c 0x2028
    || nat_beq c 0x2029
    || nat_beq c 0x202f
    || nat_beq c 0x205f
    || nat_beq c 0x3000

unfoldable pub trim_start : List ℕ → List ℕ
unfolding is_whitespace
trim_start [] = []
trim_start (c ∷ cs) = let rest = trim_start cs in if is_whitespace c then rest else c ∷ cs

-- `s.trim()`
unfoldable pub trim : Str → Str
unfolding trim_start chars collect
trim s = collect (reverse (trim_start (reverse (trim_start (chars s)))))

-- No byte of a text is the separator.
abbrev pub IsFree : ℕ → Str → Type 0
IsFree sep s = All (λ c. c ≢ sep) s

-- A part that ends at a separator, or at the end, is the first part.
pub split-free : (sep : ℕ) (s : Str) → IsFree sep s → split sep s ≡ s ∷ []
unfolding split
split-free sep [] h = refl
split-free sep (c ∷ s) h = ground (arith, nat_beq_iff c sep, split-free sep s)

pub split-append :
    (sep : ℕ) (s rest : Str) → IsFree sep s → split sep (s ++ sep ∷ rest) ≡ s ∷ split sep rest
unfolding split
split-append sep [] rest h = ground (arith, nat_beq_iff sep sep)
split-append sep (c ∷ s) rest h = ground (arith, nat_beq_iff c sep, split-append sep s rest)

split-cons : (sep : ℕ) (s : Str) → (part : Str) × (parts : List Str) × (split sep s ≡ part ∷ parts)
unfolding split
split-cons sep [] = ([], [], refl)
split-cons sep (c ∷ s) = elim (Bool-cases (nat_beq c sep)) [
  | inl same ↦ ([], split sep s, rw same refl)
  | inr other ↦ let (part, parts, e) = split-cons sep s in (c ∷ part, parts, rw (other, e) refl)
]

-- A separator splits any text in two.
pub split-append_any :
    (sep : ℕ) (s rest : Str) → split sep (s ++ sep ∷ rest) ≡ split sep s ++ split sep rest
unfolding split
split-append_any sep [] rest = ground (arith, nat_beq_iff sep sep)
split-append_any sep (c ∷ s) rest = elim (Bool-cases (nat_beq c sep)) [
  | inl same ↦ rw same (ap (◌∷◌ []) (split-append_any sep s rest))
  | inr other ↦
      let (part, parts, e) = split-cons sep s in rw (other, split-append_any sep s rest, e) refl
]

-- A first part, and what the other parts come from.
abbrev pub IsFirst : ℕ → Str → Str → List Str → Type 0
IsFirst sep s part parts =
    IsFree sep part
    × (((parts ≡ []) × (s ≡ part))
        ⊎ ((rest : Str) × (s ≡ part ++ sep ∷ rest) × (split sep rest ≡ parts)))

IsFirst-cons :
    (sep c : ℕ) (s part : Str) (parts : List Str)
    → c ≢ sep
    → IsFirst sep s part parts
    → IsFirst sep (c ∷ s) (c ∷ part) parts
IsFirst-cons sep c s part parts ne (free, inl (last, same)) =
    ((ne, free), inl (last, ap (◌∷◌ c) same))
IsFirst-cons sep c s part parts ne (free, inr (rest, same, later)) =
    ((ne, free), inr (rest, ap (◌∷◌ c) same, later))

-- The first part is free of the separator. Either it is all, or the separator follows, and then the
-- text from which the other parts come.
pub split-inversion :
    (sep : ℕ) (s part : Str) (parts : List Str)
    → split sep s ≡ part ∷ parts
    → IsFirst sep s part parts
unfolding split
split-inversion sep [] part parts e =
    let p : [] ≡ part = ground arith in
    let ps : [] ≡ parts = ground arith in subst₂ (IsFirst sep []) p ps (tt, inl (refl, refl))
split-inversion sep (c ∷ s) part parts e = elim (Bool-cases (nat_beq c sep)) [
  | inl same ↦
      let p : [] ≡ part = ground arith in
      let ps : split sep s ≡ parts = ground arith in
      let at : c ≡ sep = (nat_beq_iff c sep).0 same in
      subst₂ (IsFirst sep (c ∷ s)) p ps (tt, inr (s, ap (λ x. x ∷ s) at, refl))
  | inr other ↦
      let (part', parts', e') = split-cons sep s in
      let p : c ∷ part' ≡ part = ground arith in
      let ps : parts' ≡ parts = ground arith in
      subst₂ (IsFirst sep (c ∷ s)) p ps (
        IsFirst-cons sep c s part' parts' (ground (arith, nat_beq_iff c sep))
          (split-inversion sep s part' parts' e'))
]
