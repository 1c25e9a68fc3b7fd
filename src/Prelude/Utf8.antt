-- ===== src/Prelude/Utf8.antt =====
-- UTF-8: which bytes are a `str`, and its `char`s.
use Prim.Native.Nat.{ℕ, zero, suc, ◌+◌, ◌-◌, ◌*◌, ◌/◌, ◌%◌}
use mathlib.Core.Bool.{Bool, true, false, ◌&&◌}
use mathlib.Core.List.{List, [], ◌∷◌, ◌++◌}
use mathlib.Core.Option.{Option, none, some}
use webdav_server_rs.Prelude.Tests.{ltb, leb, nat_beq, if◌then◌else◌}
use webdav_server_rs.Prelude.Text.{Str}
use webdav_server_rs.Prelude.Lists.{All}
use mathlib.Core.Path.{◌≡◌, refl}

-- For the first byte of a character: how many bytes follow, and the range of the next one.
abbrev lead : ℕ → Option (ℕ × ℕ × ℕ)
lead b =
    if ltb b 0x80
    then some (0, 0x80, 0xbf)
    else if ltb b 0xc2
    then none
    else if ltb b 0xe0
    then some (1, 0x80, 0xbf)
    else if nat_beq b 0xe0
    then some (2, 0xa0, 0xbf)
    else if nat_beq b 0xed
    then some (2, 0x80, 0x9f)
    else if ltb b 0xf0
    then some (2, 0x80, 0xbf)
    else if nat_beq b 0xf0
    then some (3, 0x90, 0xbf)
    else if ltb b 0xf4
    then some (3, 0x80, 0xbf)
    else if nat_beq b 0xf4
    then some (3, 0x80, 0x8f)
    else none

-- Whether bytes are valid, where `need` more bytes of a character are due, the next of them in a
-- range.
utf8_from : (need lo hi : ℕ) → Str → Bool
utf8_from zero lo hi [] = true
utf8_from (suc need) lo hi [] = false
utf8_from zero lo hi (b ∷ s) = elim (lead b) [ none ↦ false | some (n, l, h) ↦ utf8_from n l h s ]
utf8_from (suc need) lo hi (b ∷ s) = leb lo b && leb b hi && utf8_from need 0x80 0xbf s

-- `std::str::from_utf8(s).ok()`
unfoldable pub from_utf8 : Str → Option Str
unfolding utf8_from
from_utf8 s = if utf8_from 0 0 0 s then some s else none

-- `s.chars()` of a valid `str`: `acc` holds the bits of the current character so far.
chars_from : (need acc : ℕ) → Str → List ℕ
chars_from need acc [] = []
chars_from zero acc (b ∷ s) =
    if ltb b 0x80
    then b ∷ chars_from 0 0 s
    else if ltb b 0xe0
    then chars_from 1 (b - 0xc0) s
    else if ltb b 0xf0
    then chars_from 2 (b - 0xe0) s
    else chars_from 3 (b - 0xf0) s
chars_from (suc zero) acc (b ∷ s) = (acc * 64 + b % 64) ∷ chars_from 0 0 s
chars_from (suc (suc need)) acc (b ∷ s) = chars_from (suc need) (acc * 64 + b % 64) s

unfoldable pub chars : Str → List ℕ
unfolding chars_from
chars s = chars_from 0 0 s

-- The bytes of one character, and of a sequence of them (`collect::<String>()`).
unfoldable pub encode : ℕ → Str
encode c =
    if ltb c 0x80
    then c ∷ []
    else if ltb c 0x800
    then (0xc0 + c / 64) ∷ (0x80 + c % 64) ∷ []
    else if ltb c 0x10000
    then (0xe0 + c / 4096) ∷ (0x80 + (c / 64) % 64) ∷ (0x80 + c % 64) ∷ []
    else (0xf0 + c / 262144)
      ∷ (0x80 + (c / 4096) % 64)
      ∷ (0x80 + (c / 64) % 64)
      ∷ (0x80 + c % 64)
      ∷ []

unfoldable pub collect : List ℕ → Str
unfolding encode
collect [] = []
collect (c ∷ cs) = encode c ++ collect cs

-- Text in ASCII.
abbrev pub IsAscii : Str → Type 0
IsAscii = All (λ c. ltb c 0x80 ≡ true)

pub chars_of_ascii : (s : Str) → IsAscii s → chars s ≡ s
unfolding chars
chars_of_ascii [] all = refl
chars_of_ascii (c ∷ s) all = rw (all.0, chars_of_ascii s all.1) refl

utf8_from_of_ascii : (s : Str) (lo hi : ℕ) → IsAscii s → utf8_from 0 lo hi s ≡ true
unfolding utf8_from
utf8_from_of_ascii [] lo hi all = refl
utf8_from_of_ascii (c ∷ s) lo hi all =
    let one : lead c ≡ some (0, 0x80, 0xbf) = rw (lead, all.0) refl in
    rw (utf8_from, one) (utf8_from_of_ascii s 0x80 0xbf all.1)

pub from_utf8_of_ascii : (s : Str) → IsAscii s → from_utf8 s ≡ some s
unfolding from_utf8
from_utf8_of_ascii s all = rw (utf8_from_of_ascii s 0 0 all) refl
