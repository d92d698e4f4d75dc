-- ===== src/Js/Numeral.antt =====
-- Reading a number back from its decimal form.
use Prim.Native.Char.{Char, code}
use Prim.Native.String.{String, [], ◌∷◌}
use text.Mathlib.TextLemmas.{cons-ne-nil}
use beckn_data_commons.Base.{
  ℕ, zero, suc, ◌+◌, ◌-◌, ◌*◌, ◌/◌, ◌%◌, ◌<◌, Bool, true, false, ◌&&◌, ◌==◌, ◌≡◌, refl, ap, arith,
  eq_iff, leb, ltb, not, Bool-cases, inl, inr, if◌then◌else◌,
}
use beckn_data_commons.Js.{Number, nat, digit, decimal_from, decimal}
use beckn_data_commons.Js.Text.{all_chars}

abbrev pub is_digit : ℕ → Bool
is_digit c = leb b'0' c && leb c b'9'

unfoldable pub digits_value : ℕ → String → ℕ
digits_value acc [] = acc
digits_value acc (c ∷ s) = digits_value (acc * 10 + (code c - b'0')) s

-- `Number(s)`: a plain numeral is read here (exact below 2^53), and `other` stands for the rest of
-- the language's grammar of numbers
unfoldable pub to_number : (String → Number) → String → Number
to_number other s =
    if not (s == "") && all_chars is_digit s then nat (digits_value 0 s) else other s

-- the ten digits by evaluation
abbrev pub all_below : ℕ → (ℕ → Bool) → Bool
all_below zero p = true
all_below (suc n) p = p n && all_below n p

pub all_below_sound : (n : ℕ) (p : ℕ → Bool) (x : ℕ) → all_below n p ≡ true → x < n → p x ≡ true
all_below_sound zero p x h lt = absurd (omega arith)
all_below_sound (suc n) p x h lt = ground (arith, all_below_sound n p x)

abbrev digit_ok : ℕ → Bool
digit_ok d =
    leb b'0' (code (digit d)) && leb (code (digit d)) (b'0' + d) && leb (b'0' + d) (code (digit d))

digit_table : all_below 10 digit_ok ≡ true
unfolding digit
digit_table = refl

pub digit-code : (d : ℕ) → d < 10 → code (digit d) ≡ b'0' + d
digit-code d h = ground (arith, all_below_sound 10 digit_ok d digit_table h)

digits_value-digit :
    (acc d : ℕ) (t : String)
    → d < 10
    → digits_value acc (digit d ∷ t) ≡ digits_value (acc * 10 + d) t
unfolding digits_value
digits_value-digit acc d t h =
    ap (λ n. digits_value n t)
      (let e : code (digit d) ≡ b'0' + d = digit-code d h in omega (arith, e))

pub is_digit-digit :
    (d : ℕ) (t : String) → d < 10 → all_chars is_digit (digit d ∷ t) ≡ all_chars is_digit t
unfolding all_chars
is_digit-digit d t h = ground (arith, digit-code d h)

digits_value-decimal_from :
    (fuel n : ℕ) (t : String) → n < fuel → digits_value 0 (decimal_from fuel n t) ≡ digits_value n t
unfolding decimal_from
digits_value-decimal_from zero n t h = absurd (omega arith)
digits_value-decimal_from (suc f) n t h = elim (Bool-cases (ltb n 10)) [
  | inl small ↦
      rw (small, digits_value-digit 0 n t (ground arith)) (ap (λ m. digits_value m t) (omega arith))
  | inr large ↦
      rw
        (
          large,
          digits_value-decimal_from f (n / 10) (digit (n % 10) ∷ t) (ground arith),
          digits_value-digit (n / 10) (n % 10) t (omega arith),
        )
        (ap (λ m. digits_value m t) (omega arith))
]

is_digit-decimal_from :
    (fuel n : ℕ) (t : String)
    → n < fuel
    → all_chars is_digit t ≡ true
    → all_chars is_digit (decimal_from fuel n t) ≡ true
unfolding decimal_from
is_digit-decimal_from zero n t h k = absurd (omega arith)
is_digit-decimal_from (suc f) n t h k = elim (Bool-cases (ltb n 10)) [
  | inl small ↦ rw (small, is_digit-digit n t (ground arith)) k
  | inr large ↦ rw large (
      is_digit-decimal_from f (n / 10) (digit (n % 10) ∷ t) (ground arith)
        (rw (is_digit-digit (n % 10) t (omega arith)) k))
]

pub cons-ne-empty : (c : Char) (t : String) → (c ∷ t == "") ≡ false
cons-ne-empty c t = elim (Bool-cases (c ∷ t == "")) [
  | inl h ↦ absurd (cons-ne-nil c t ((eq_iff (c ∷ t) "").0 h))
  | inr h ↦ h
]

decimal_from-cons-ne-empty :
    (fuel n : ℕ) (c : Char) (t : String) → (decimal_from fuel n (c ∷ t) == "") ≡ false
unfolding decimal_from
decimal_from-cons-ne-empty zero n c t = cons-ne-empty c t
decimal_from-cons-ne-empty (suc f) n c t = elim (Bool-cases (ltb n 10)) [
  | inl small ↦ rw small (cons-ne-empty (digit n) (c ∷ t))
  | inr large ↦ rw large (decimal_from-cons-ne-empty f (n / 10) (digit (n % 10)) (c ∷ t))
]

decimal_from-ne-empty : (fuel n : ℕ) (t : String) → 0 < fuel → (decimal_from fuel n t == "") ≡ false
unfolding decimal_from
decimal_from-ne-empty zero n t h = absurd (omega arith)
decimal_from-ne-empty (suc f) n t h = elim (Bool-cases (ltb n 10)) [
  | inl small ↦ rw small (cons-ne-empty (digit n) t)
  | inr large ↦ rw large (decimal_from-cons-ne-empty f (n / 10) (digit (n % 10)) t)
]

pub decimal-ne-empty : (n : ℕ) → (decimal n == "") ≡ false
unfolding decimal
decimal-ne-empty n = decimal_from-ne-empty (n + 1) n [] (omega arith)

pub is_digit-decimal : (n : ℕ) → all_chars is_digit (decimal n) ≡ true
unfolding decimal all_chars
is_digit-decimal n = is_digit-decimal_from (n + 1) n [] (omega arith) refl

digits_value-decimal : (n : ℕ) → digits_value 0 (decimal n) ≡ n
unfolding decimal digits_value
digits_value-decimal n = digits_value-decimal_from (n + 1) n [] (omega arith)

-- The decimal form of a number reads back as the number.
pub to_number-decimal : (other : String → Number) (n : ℕ) → to_number other (decimal n) ≡ nat n
unfolding to_number
to_number-decimal other n = rw (decimal-ne-empty n, is_digit-decimal n, digits_value-decimal n)
