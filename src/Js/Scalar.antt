-- ===== src/Js/Scalar.antt =====
-- Characters from their numbers, and texts from the bytes of UTF-8.
pub mod RoundTrip
use Prim.Native.Nat.{Ordering, compare}
use Prim.Native.Char.{Char, char, code, IsLt}
use Prim.Native.String
use beckn_data_commons.Js.Text.{◌<>◌}
use beckn_data_commons.Base.{
  ℕ, zero, suc, ◌+◌, ◌-◌, ◌*◌, String, Bool, ◌&&◌, leb, ltb, eqb, Option, none, some, List, [], ◌∷◌,
  ◌≡◌, refl, ap, if◌then◌else◌,
}

-- the condition on a number to be a character, with the clauses of the one that `char` asks for
abbrev pub Both : Ordering → Ordering → Type 0
Both Ordering.lt o = IsLt o
Both Ordering.eq _ = ⊥
Both Ordering.gt _ = ⊥

abbrev pub Scalar : Ordering → Ordering → Ordering → Type 0
Scalar Ordering.lt _ _ = Unit
Scalar Ordering.eq o p = Both o p
Scalar Ordering.gt o p = Both o p

abbrev decide_lt : (o : Ordering) → Option (IsLt o)
decide_lt Ordering.lt = some tt
decide_lt Ordering.eq = none
decide_lt Ordering.gt = none

abbrev decide_both : (o p : Ordering) → Option (Both o p)
decide_both Ordering.lt p = decide_lt p
decide_both Ordering.eq _ = none
decide_both Ordering.gt _ = none

abbrev decide_scalar : (o p q : Ordering) → Option (Scalar o p q)
decide_scalar Ordering.lt _ _ = some tt
decide_scalar Ordering.eq p q = decide_both p q
decide_scalar Ordering.gt p q = decide_both p q

abbrev replacement : Char
replacement = char 65533 tt

abbrev char_or :
    (n : ℕ) → Option (Scalar (compare n 55296) (compare 57343 n) (compare n 1114112)) → Char
char_or n none = replacement
char_or n (some h) = char n h

-- the character of a number, or U+FFFD where there is none
unfoldable pub char_of : ℕ → Char
char_of n = char_or n (decide_scalar (compare n 55296) (compare 57343 n) (compare n 1114112))

decide_lt-some : (o : Ordering) (h : IsLt o) → decide_lt o ≡ some h
decide_lt-some Ordering.lt tt = refl
decide_lt-some Ordering.eq h = absurd h
decide_lt-some Ordering.gt h = absurd h

decide_both-some : (o p : Ordering) (h : Both o p) → decide_both o p ≡ some h
decide_both-some Ordering.lt p h = decide_lt-some p h
decide_both-some Ordering.eq p h = absurd h
decide_both-some Ordering.gt p h = absurd h

decide_scalar-some : (o p q : Ordering) (h : Scalar o p q) → decide_scalar o p q ≡ some h
decide_scalar-some Ordering.lt p q tt = refl
decide_scalar-some Ordering.eq p q h = decide_both-some p q h
decide_scalar-some Ordering.gt p q h = decide_both-some p q h

pub char_of-code : (c : Char) → char_of (code c) ≡ c
unfolding char_of
char_of-code (char n h) = ap (char_or n) (decide_scalar-some _ _ _ h)

-- What is expected after a first byte: how many bytes, between which bounds the next, and the number
-- so far.
pub record Pending : Type 0 where
  pub needed : ℕ
  pub lower : ℕ
  pub upper : ℕ
  pub point : ℕ

abbrev pub idle : Pending
idle = record { needed = 0; lower = 128; upper = 191; point = 0 }

-- a first byte
unfoldable pub lead : ℕ → Option Pending
lead b =
    if ltb b 128
    then some (record idle { point = b })
    else if leb 194 b && leb b 223
    then some (record { needed = 1; lower = 128; upper = 191; point = b - 192 })
    else if eqb b 224
    then some (record { needed = 2; lower = 160; upper = 191; point = 0 })
    else if eqb b 237
    then some (record { needed = 2; lower = 128; upper = 159; point = 13 })
    else if leb 225 b && leb b 239
    then some (record { needed = 2; lower = 128; upper = 191; point = b - 224 })
    else if eqb b 240
    then some (record { needed = 3; lower = 144; upper = 191; point = 0 })
    else if eqb b 244
    then some (record { needed = 3; lower = 128; upper = 143; point = 4 })
    else if leb 241 b && leb b 243
    then some (record { needed = 3; lower = 128; upper = 191; point = b - 240 })
    else none

abbrev pub next_point : Pending → ℕ → Pending
next_point p b = record {
  needed = p.needed - 1;
  lower = 128;
  upper = 191;
  point = p.point * 64 + (b - 128);
}

-- what is written, and what is expected next
abbrev pub settle : Pending → String × Pending
settle p = if eqb p.needed 0 then (String.◌∷◌ (char_of p.point) "", idle) else ("", p)

unfoldable pub begin : ℕ → String × Pending
unfolding lead char_of
begin b = elim (lead b) [ none ↦ (String.◌∷◌ replacement "", idle) | some p ↦ settle p ]

-- a byte that does not fit ends the sequence, and is read again as a first byte
unfoldable pub step : Pending → ℕ → String × Pending
unfolding begin char_of
step p b =
    if eqb p.needed 0
    then begin b
    else if leb p.lower b && leb b p.upper
    then settle (next_point p b)
    else (String.◌∷◌ replacement (begin b).0, (begin b).1)

unfoldable pub decode_from : Pending → List ℕ → String
unfolding step
decode_from p [] = if eqb p.needed 0 then "" else String.◌∷◌ replacement ""
decode_from p (b ∷ bs) = let (text, q) = step p b in text <> decode_from q bs

-- `bytes.toString('utf-8')`
unfoldable pub utf8_decode : List ℕ → String
unfolding decode_from
utf8_decode bs = decode_from idle bs
