-- ===== src/Prelude/Text.antt =====
-- Text as its bytes, and the operations of `str` that the program uses.
use Prim.Native.Nat.{ℕ}
use Prim.Native.Char.{code}
use Prim.Native.String.{String}
use mathlib.Core.Path.{◌≡◌}
use mathlib.Core.Logic.{◌↔◌}
use mathlib.Core.Bool.{Bool, true, false, ◌&&◌, ◌||◌}
use mathlib.Core.List.{List, [], ◌∷◌}
use native.Mathlib.Omega.{arith}
use webdav_server_rs.Prelude.Tests.{nat_beq, nat_beq_iff, Eq}

-- A `String`, a `&str`, a path or a byte slice: the list of its bytes.
abbrev pub Str : Type 0
Str = List ℕ

-- The bytes of an ASCII literal.
abbrev pub bytes : String → Str
bytes String.[] = []
bytes (String.◌∷◌ c s) = code c ∷ bytes s

abbrev pub str_beq : Str → Str → Bool
str_beq [] [] = true
str_beq [] (_ ∷ _) = false
str_beq (_ ∷ _) [] = false
str_beq (x ∷ xs) (y ∷ ys) = nat_beq x y && str_beq xs ys

pub str_beq_iff : (a b : Str) → (str_beq a b ≡ true) ↔ (a ≡ b)
str_beq_iff [] [] = ground arith
str_beq_iff [] (_ ∷ _) = ground arith
str_beq_iff (_ ∷ _) [] = ground arith
str_beq_iff (x ∷ xs) (y ∷ ys) = ground (arith, nat_beq_iff x y, str_beq_iff xs ys)

instance abbrev pub str_eq : Eq Str
str_eq = record { test = str_beq; test_iff = str_beq_iff }

-- `s.starts_with(p)`
abbrev pub starts_with : Str → Str → Bool
starts_with s [] = true
starts_with [] (_ ∷ _) = false
starts_with (x ∷ xs) (y ∷ ys) = nat_beq x y && starts_with xs ys

-- `s.contains(p)`
abbrev pub contains : Str → Str → Bool
contains [] p = starts_with [] p
contains (x ∷ xs) p = starts_with (x ∷ xs) p || contains xs p
