-- ===== src/Prelude/Decimal.antt =====
-- `u32::to_string`: the decimal digits of a number.
use Prim.Native.Nat.{ℕ, zero, suc, ◌+◌, ◌-◌, ◌*◌, ◌/◌, ◌%◌, ◌^◌, ◌<◌}
use mathlib.Core.Path.{◌≡◌, refl, sym, ap, ◌∙◌}
use mathlib.Core.Logic.{◌≢◌, inl, inr}
use mathlib.Core.List.{[], ◌∷◌, ◌++◌}
use native.Mathlib.Omega.{arith}
use webdav_server_rs.Prelude.Tests.{ltb, Bool-cases, if◌then◌else◌}
use webdav_server_rs.Prelude.Text.{Str}
use webdav_server_rs.Prelude.Lists.{All}

-- At most `n` digits.
unfoldable pub digits : ℕ → ℕ → Str
digits zero n = []
digits (suc k) n =
    let higher = digits k (n / 10) in
    if ltb n 10 then (b'0' + n) ∷ [] else higher ++ ((b'0' + n % 10) ∷ [])

-- A `u32` has at most ten digits.
unfoldable pub to_string : ℕ → Str
unfolding digits
to_string n = digits 10 n

-- 10 to the power of the number of digits.
abbrev pub limit : ℕ → ℕ
limit zero = 1
limit (suc k) = 10 * limit k

abbrev value_from : ℕ → Str → ℕ
value_from acc [] = acc
value_from acc (d ∷ s) = value_from (acc * 10 + (d - b'0')) s

value_from-append :
    (acc : ℕ) (s : Str) (d : ℕ)
    → value_from acc (s ++ (d ∷ [])) ≡ value_from acc s * 10 + (d - b'0')
value_from-append acc [] d = refl
value_from-append acc (c ∷ s) d = value_from-append (acc * 10 + (c - b'0')) s d

value-digits : (k n : ℕ) → n < limit k → value_from 0 (digits k n) ≡ n
unfolding digits
value-digits zero n h = omega arith
value-digits (suc k) n h = elim (Bool-cases (ltb n 10)) [
  | inl small ↦ rw small (omega arith)
  | inr large ↦ rw large (
      value_from-append 0 (digits k (n / 10)) (b'0' + n % 10)
      ∙ omega (arith, value-digits k (n / 10) (omega arith)))
]

-- A digit is neither a slash nor a full stop.
abbrev IsDigit : ℕ → Type 0
IsDigit c = (c ≢ b'/') × (c ≢ b'.')

All-append_one : (s : Str) (d : ℕ) → All IsDigit s → IsDigit d → All IsDigit (s ++ (d ∷ []))
All-append_one [] d all h = (h, tt)
All-append_one (c ∷ s) d all h = (all.0, All-append_one s d all.1 h)

digits-IsDigit : (k n : ℕ) → All IsDigit (digits k n)
unfolding digits
digits-IsDigit zero n = tt
digits-IsDigit (suc k) n = elim (Bool-cases (ltb n 10)) [
  | inl small ↦ rw small ((omega arith, omega arith), tt)
  | inr large ↦ rw large (
      All-append_one (digits k (n / 10)) (b'0' + n % 10) (digits-IsDigit k (n / 10))
        (omega arith, omega arith))
]

pub to_string-IsDigit : (n : ℕ) → All (λ c. (c ≢ b'/') × (c ≢ b'.')) (to_string n)
unfolding to_string
to_string-IsDigit n = digits-IsDigit 10 n

-- Two numbers below 2 ^ 32 with the same digits are the same.
pub to_string_injective : (a b : ℕ) → a < 2 ^ 32 → b < 2 ^ 32 → to_string a ≡ to_string b → a ≡ b
unfolding to_string
to_string_injective a b h k e =
    sym (value-digits 10 a (omega arith)) ∙ ap (value_from 0) e ∙ value-digits 10 b (omega arith)

append_one-ne-nil : (s : Str) (d : ℕ) → (s ++ (d ∷ [])) ≢ []
append_one-ne-nil [] d e = ground arith
append_one-ne-nil (c ∷ s) d e = ground arith

digits-ne-nil : (k n : ℕ) → digits (suc k) n ≢ []
unfolding digits
digits-ne-nil k n e = elim (Bool-cases (ltb n 10)) [
  | inl small ↦ let e' = rw small at e in ground arith
  | inr large ↦ append_one-ne-nil (digits k (n / 10)) (b'0' + n % 10) (rw large at e)
]

pub to_string-ne-nil : (n : ℕ) → to_string n ≢ []
unfolding to_string
to_string-ne-nil n = digits-ne-nil 9 n
