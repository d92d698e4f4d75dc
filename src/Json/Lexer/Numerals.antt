-- ===== src/Json/Lexer/Numerals.antt =====
-- The printed forms of numbers are numerals.
use Prim.Native.Char.{code}
use mathlib.Core.Path.{subst}
use beckn_data_commons.Base.{
  ℕ, zero, suc, ◌+◌, ◌/◌, ◌%◌, ◌<◌, String, true, false, ltb, Option, none, some, ◌≡◌, refl, arith,
  inl, inr, Bool-cases,
}
use beckn_data_commons.Js.{decimal, decimal_from, digit}
use beckn_data_commons.Js.Text.{all_chars}
use beckn_data_commons.Js.Numeral.{is_digit, digit-code, is_digit-digit}
use beckn_data_commons.Json.Lexer.{
  Phase, start, minus, leading_zero, integer, point, decimals, exponent, exponent_sign,
  exponent_digits, next_phase, is_numeral_from, is_numeral, is_numeric,
}

-- Only some characters go on with a numeral.
next_phase-other : (p : Phase) (n : ℕ) → is_numeric n ≡ false → next_phase p n ≡ none
unfolding next_phase
next_phase-other start n h = ground (arith, h)
next_phase-other minus n h = ground (arith, h)
next_phase-other leading_zero n h = ground (arith, h)
next_phase-other integer n h = ground (arith, h)
next_phase-other point n h = ground (arith, h)
next_phase-other decimals n h = ground (arith, h)
next_phase-other exponent n h = ground (arith, h)
next_phase-other exponent_sign n h = ground (arith, h)
next_phase-other exponent_digits n h = ground (arith, h)

pub all_numeric :
    (p : Option Phase) (s : String) → is_numeral_from p s ≡ true → all_chars is_numeric s ≡ true
unfolding is_numeral_from all_chars
all_numeric none s h = cc
all_numeric (some p) String.[] h = refl
all_numeric (some p) (String.◌∷◌ c s) h = elim (Bool-cases (is_numeric (code c))) [
  | inl numeric ↦ rw numeric (all_numeric (next_phase p (code c)) s h)
  | inr other ↦
      let stuck : is_numeral_from none s ≡ true =
        subst (λ q. is_numeral_from q s ≡ true) (next_phase-other p (code c) other) h in
      cc
]

-- Digits go on with a whole number.
is_numeral_from-digits :
    (s : String) → all_chars is_digit s ≡ true → is_numeral_from (some integer) s ≡ true
unfolding is_numeral_from all_chars next_phase
is_numeral_from-digits String.[] h = refl
is_numeral_from-digits (String.◌∷◌ c s) h = ground (arith, is_numeral_from-digits s)

begins_numeral :
    (d : ℕ) (t : String)
    → d < 10
    → 0 < d
    → all_chars is_digit t ≡ true
    → is_numeral_from (some start) (String.◌∷◌ (digit d) t) ≡ true
unfolding is_numeral_from next_phase
begins_numeral d t h pos k = ground (arith, digit-code d h, is_numeral_from-digits t k)

is_numeral-decimal_from :
    (fuel n : ℕ) (t : String)
    → n < fuel
    → 0 < n
    → all_chars is_digit t ≡ true
    → is_numeral_from (some start) (decimal_from fuel n t) ≡ true
unfolding decimal_from
is_numeral-decimal_from zero n t h pos k = absurd (omega arith)
is_numeral-decimal_from (suc f) n t h pos k = elim (Bool-cases (ltb n 10)) [
  | inl small ↦ rw small (begins_numeral n t (ground arith) pos k)
  | inr large ↦ rw large (
      is_numeral-decimal_from f (n / 10) (String.◌∷◌ (digit (n % 10)) t) (ground arith)
        (ground arith) (rw (is_digit-digit (n % 10) t (omega arith)) k))
]

pub is_numeral-decimal : (n : ℕ) → is_numeral (decimal n) ≡ true
unfolding is_numeral decimal
is_numeral-decimal zero = refl
is_numeral-decimal (suc n) =
    is_numeral-decimal_from (suc n + 1) (suc n) "" (omega arith) (omega arith)
      (unfold all_chars in refl)
