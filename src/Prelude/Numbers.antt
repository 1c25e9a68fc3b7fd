-- ===== src/Prelude/Numbers.antt =====
-- Decimal numbers as they are read: `u32::from_str`, and the port of a `SocketAddr`.
use Prim.Native.Nat.{ℕ, zero, suc, ◌+◌, ◌-◌, ◌*◌, ◌/◌, ◌%◌, ◌^◌, ◌<◌}
use mathlib.Core.Path.{◌≡◌, refl, sym, ap, ◌∙◌}
use mathlib.Core.Logic.{◌≢◌, inl, inr}
use mathlib.Core.Bool.{true, ◌&&◌}
use mathlib.Core.Option.{Option, none, some}
use mathlib.Core.List.{[], ◌∷◌, ◌++◌, append_assoc, append-nil}
use native.Mathlib.Omega.{arith}
use webdav_server_rs.Prelude.Tests.{ltb, leb, nat_beq, Bool-cases, if◌then◌else◌}
use webdav_server_rs.Prelude.Text.{Str}
use webdav_server_rs.Prelude.Decimal.{digits, to_string, limit, to_string-ne-nil}

-- Digits only, and no value that reaches the bound.
unfoldable pub number_from : ℕ → ℕ → Str → Option ℕ
number_from bound acc [] = some acc
number_from bound acc (c ∷ s) =
    let n = acc * 10 + (c - b'0') in
    let rest = number_from bound n s in
    if leb b'0' c && leb c b'9' && ltb n bound then rest else none

unfoldable pub parse_number : ℕ → Str → Option ℕ
unfolding number_from
parse_number bound [] = none
parse_number bound (c ∷ s) = number_from bound 0 (c ∷ s)

-- `u32::from_str`, which takes a plus sign in front of digits.
unfoldable pub parse_u32 : Str → Option ℕ
unfolding parse_number
parse_u32 [] = none
parse_u32 (c ∷ s) =
    if nat_beq c b'+' then parse_number (2 ^ 32) s else parse_number (2 ^ 32) (c ∷ s)

-- One more digit.
number_from_digit :
    (bound acc d : ℕ) (t : Str)
    → d < 10
    → acc * 10 + d < bound
    → number_from bound acc ((b'0' + d) ∷ t) ≡ number_from bound (acc * 10 + d) t
unfolding number_from
number_from_digit bound acc d t h b =
    let value : acc * 10 + ((b'0' + d) - b'0') ≡ acc * 10 + d = omega arith in
    let digit : (leb b'0' (b'0' + d) && leb (b'0' + d) b'9' && ltb (acc * 10 + d) bound) ≡ true =
      ground arith in
    rw (value, digit) refl

number_from-digits :
    (bound k n : ℕ) (t : Str)
    → n < limit k
    → n < bound
    → number_from bound 0 (digits k n ++ t) ≡ number_from bound n t
unfolding digits
number_from-digits bound zero n t h b = let none_left : n ≡ 0 = omega arith in rw none_left refl
number_from-digits bound (suc k) n t h b = elim (Bool-cases (ltb n 10)) [
  | inl small ↦
      let same : 0 * 10 + n ≡ n = omega arith in
      rw small (
        number_from_digit bound 0 n t (ground arith) (omega arith)
        ∙ ap (λ m. number_from bound m t) same)
  | inr large ↦
      let whole : n / 10 * 10 + n % 10 ≡ n = omega arith in
      rw large (
        rw (append_assoc (digits k (n / 10)) ((b'0' + n % 10) ∷ []) t) (
          number_from-digits bound k (n / 10) ((b'0' + n % 10) ∷ t) (omega arith) (omega arith)
          ∙ number_from_digit bound (n / 10) (n % 10) t (omega arith) (omega arith)
          ∙ ap (λ m. number_from bound m t) whole))
]

parse_number_cons : (bound : ℕ) (s : Str) → s ≢ [] → parse_number bound s ≡ number_from bound 0 s
unfolding parse_number
parse_number_cons bound [] ne = absurd (ne refl)
parse_number_cons bound (c ∷ s) ne = refl

-- The decimal digits of a `u32` below the bound are read back.
pub parse_number-to_string :
    (bound n : ℕ) → n < bound → n < 2 ^ 32 → parse_number bound (to_string n) ≡ some n
unfolding to_string
parse_number-to_string bound n b h =
    parse_number_cons bound (to_string n) (to_string-ne-nil n)
    ∙ ap (number_from bound 0) (sym (append-nil (digits 10 n)))
    ∙ number_from-digits bound 10 n [] (omega arith) b
    ∙ unfold number_from in refl

-- A text that is read as a number does not begin with a plus sign.
parse_number_plus :
    (bound c : ℕ) (s : Str) → nat_beq c b'+' ≡ true → parse_number bound (c ∷ s) ≡ none
unfolding parse_number number_from
parse_number_plus bound c s plus = ground arith

parse_u32_of_parse_number :
    (s : Str) (n : ℕ) → parse_number (2 ^ 32) s ≡ some n → parse_u32 s ≡ some n
unfolding parse_u32
parse_u32_of_parse_number [] n e = absurd (unfold parse_number in ground arith)
parse_u32_of_parse_number (c ∷ s) n e = elim (Bool-cases (nat_beq c b'+')) [
  | inl plus ↦ let never = parse_number_plus (2 ^ 32) c s plus in absurd (ground arith)
  | inr other ↦ rw other e
]

pub parse_u32-to_string : (n : ℕ) → n < 2 ^ 32 → parse_u32 (to_string n) ≡ some n
parse_u32-to_string n h =
    parse_u32_of_parse_number (to_string n) n (parse_number-to_string (2 ^ 32) n h h)
