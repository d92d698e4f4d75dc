-- ===== src/Js/Text/Order.antt =====
-- The order of texts by UTF-16 units is a strict total order.
use Prim.Native.Char.{char, code, IsScalar}
use Prim.Native.String.{String, [], ◌∷◌}
use text.Mathlib.TextEquality.{Char-path}
use beckn_data_commons.Base.{
  ℕ, ◌<◌, true, false, List, ◌≡◌, ◌≢◌, refl, sym, arith, ◌⊎◌, inl, inr, Bool-cases,
}
use beckn_data_commons.Js.Text.{units, lex_lt, text_lt, char_units}

lex_lt_irrefl : (xs : List ℕ) → lex_lt xs xs ≡ false
unfolding lex_lt
lex_lt_irrefl List.[] = refl
lex_lt_irrefl (List.◌∷◌ x xs) = ground (arith, lex_lt_irrefl xs)

lex_lt-asym : (xs ys : List ℕ) → lex_lt xs ys ≡ true → lex_lt ys xs ≡ false
unfolding lex_lt
lex_lt-asym List.[] List.[] h = refl
lex_lt-asym List.[] (List.◌∷◌ y ys) h = refl
lex_lt-asym (List.◌∷◌ x xs) List.[] h = cc
lex_lt-asym (List.◌∷◌ x xs) (List.◌∷◌ y ys) h = ground (arith, lex_lt-asym xs ys)

lex_lt-total : (xs ys : List ℕ) → lex_lt xs ys ≡ false → lex_lt ys xs ≡ false → xs ≡ ys
unfolding lex_lt
lex_lt-total List.[] List.[] h k = refl
lex_lt-total List.[] (List.◌∷◌ y ys) h k = cc
lex_lt-total (List.◌∷◌ x xs) List.[] h k = cc
lex_lt-total (List.◌∷◌ x xs) (List.◌∷◌ y ys) h k = ground (arith, lex_lt-total xs ys)

-- from `b ≤ d` and `d < a`, `b < a`
lex_lt-between : (a b d : List ℕ) → lex_lt d b ≡ false → lex_lt d a ≡ true → lex_lt b a ≡ true
unfolding lex_lt
lex_lt-between List.[] List.[] List.[] h k = cc
lex_lt-between List.[] List.[] (List.◌∷◌ z zs) h k = cc
lex_lt-between List.[] (List.◌∷◌ y ys) List.[] h k = cc
lex_lt-between List.[] (List.◌∷◌ y ys) (List.◌∷◌ z zs) h k = cc
lex_lt-between (List.◌∷◌ x xs) List.[] d h k = refl
lex_lt-between (List.◌∷◌ x xs) (List.◌∷◌ y ys) List.[] h k = cc
lex_lt-between (List.◌∷◌ x xs) (List.◌∷◌ y ys) (List.◌∷◌ z zs) h k =
    ground (arith, lex_lt-between xs ys zs)

-- A scalar value is no surrogate.
scalar_range : (n : ℕ) → IsScalar n → ((n < 55296) ⊎ (57343 < n)) × (n < 1114112)
scalar_range n h = ground arith

module _ (c d : ℕ) (sc : IsScalar c) (sd : IsScalar d) where
  char_units-inj : (xs ys : List ℕ) → char_units c xs ≡ char_units d ys → (c ≡ d) × (xs ≡ ys)
  char_units-inj xs ys e = ground (arith, scalar_range c sc, scalar_range d sd)

-- The units of a text that is not empty are not empty.
char_units-ne-nil : (c : ℕ) (xs : List ℕ) → char_units c xs ≢ List.[]
char_units-ne-nil c xs = ground arith

units-inj : (a b : String) → units a ≡ units b → a ≡ b
unfolding units
units-inj [] [] e = refl
units-inj [] (d ∷ t) e = absurd (char_units-ne-nil (code d) (units t) (sym e))
units-inj (c ∷ s) [] e = absurd (char_units-ne-nil (code c) (units s) e)
units-inj (char n p ∷ s) (char m q ∷ t) e =
    let (same, rest) = char_units-inj n m p q (units s) (units t) e in
    cc (Char-path (char n p) (char m q) same, units-inj s t rest)

pub text_lt_irrefl : (a : String) → text_lt a a ≡ false
unfolding text_lt
text_lt_irrefl a = lex_lt_irrefl (units a)

pub text_lt-asym : (a b : String) → text_lt a b ≡ true → text_lt b a ≡ false
unfolding text_lt
text_lt-asym a b = lex_lt-asym (units a) (units b)

pub text_lt-total : (a b : String) → a ≢ b → text_lt a b ≡ false → text_lt b a ≡ true
unfolding text_lt
text_lt-total a b ne h = elim (Bool-cases (text_lt b a)) [
  | inl lt ↦ lt
  | inr k ↦ absurd (ne (units-inj a b (lex_lt-total (units a) (units b) h k)))
]

pub text_lt-between :
    (a b d : String) → text_lt d b ≡ false → text_lt d a ≡ true → text_lt b a ≡ true
unfolding text_lt
text_lt-between a b d = lex_lt-between (units a) (units b) (units d)
