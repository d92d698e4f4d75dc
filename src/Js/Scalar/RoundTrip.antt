-- ===== src/Js/Scalar/RoundTrip.antt =====
-- The bytes of a text decode to the text.
use Prim.Native.Nat.{Ordering, compare}
use Prim.Native.Char.{Char, char, code}
use text.Mathlib.TextLemmas.{nil-append, cons-append}
use beckn_data_commons.Base.{
  ℕ, ◌+◌, ◌-◌, ◌*◌, ◌/◌, ◌%◌, ◌<◌, ◌≤◌, String, true, false, leb, ltb, eqb, some, List, ◌≡◌, refl,
  ap, ◌∙◌, arith, ◌⊎◌, inl, inr, Bool-cases, All,
}
use mathlib.Core.List.{◌∷◌}
use beckn_data_commons.Js.Text.{utf8, utf8_char}
use beckn_data_commons.Js.Scalar.{
  Pending, Scalar, Both, idle, lead, settle, next_point, begin, step, decode_from, utf8_decode,
  char_of, char_of-code,
}

abbrev pub IsByte : ℕ → Type 0
IsByte b = b < 256

-- A character is below the surrogates or above them.
abbrev pub InRange : ℕ → Type 0
InRange n = (n < 55296) ⊎ ((57343 < n) × (n < 1114112))

range_above :
    (n : ℕ) (p q : Ordering) → compare 57343 n ≡ p → compare n 1114112 ≡ q → Both p q → InRange n
range_above n Ordering.lt Ordering.lt e f h =
    let above : ltb 57343 n ≡ true = rw (ltb, e) refl in
    let below : ltb n 1114112 ≡ true = rw (ltb, f) refl in
    inr (ground (arith, above), ground (arith, below))
range_above n Ordering.lt Ordering.eq e f h = absurd h
range_above n Ordering.lt Ordering.gt e f h = absurd h
range_above n Ordering.eq q e f h = absurd h
range_above n Ordering.gt q e f h = absurd h

range_of :
    (n : ℕ) (o : Ordering)
    → compare n 55296 ≡ o
    → Scalar o (compare 57343 n) (compare n 1114112)
    → InRange n
range_of n Ordering.lt e h =
    let below : ltb n 55296 ≡ true = rw (ltb, e) refl in inl (ground (arith, below))
range_of n Ordering.eq e h = range_above n _ _ refl refl h
range_of n Ordering.gt e h = range_above n _ _ refl refl h

pub InRange-code : (c : Char) → InRange (code c)
InRange-code (char n h) = range_of n _ refl h

pending : ℕ → ℕ → ℕ → ℕ → Pending
pending k l u p = record { needed = k; lower = l; upper = u; point = p }

step-fits :
    (p : Pending) (b : ℕ)
    → 0 < p.needed
    → p.lower ≤ b
    → b ≤ p.upper
    → step p b ≡ settle (next_point p b)
unfolding step
step-fits p b h low high =
    let more : eqb p.needed 0 ≡ false = ground arith in
    let l : leb p.lower b ≡ true = ground arith in
    let u : leb b p.upper ≡ true = ground arith in rw (more, l, u) refl

-- A byte that fits is taken, and the last one completes the character.
decode_from-next :
    (p : Pending) (b : ℕ) (bs : List ℕ)
    → 1 < p.needed
    → p.lower ≤ b
    → b ≤ p.upper
    → decode_from p (b ∷ bs) ≡ decode_from (next_point p b) bs
unfolding decode_from
decode_from-next p b bs h low high =
    let more : eqb (p.needed - 1) 0 ≡ false = ground arith in
    rw (step-fits p b (omega arith) low high, more) (nil-append _)

decode_from-last :
    (p : Pending) (b : ℕ) (bs : List ℕ)
    → p.needed ≡ 1
    → p.lower ≤ b
    → b ≤ p.upper
    → decode_from p (b ∷ bs) ≡ String.◌∷◌ (char_of (p.point * 64 + (b - 128))) (decode_from idle bs)
unfolding decode_from
decode_from-last p b bs h low high =
    let done : eqb (p.needed - 1) 0 ≡ true = ground arith in
    rw (step-fits p b (omega arith) low high, done, cons-append, nil-append)

step-idle : (b : ℕ) → step idle b ≡ begin b
unfolding step
step-idle b = refl

begin-lead : (b : ℕ) (p : Pending) → lead b ≡ some p → begin b ≡ settle p
unfolding begin
begin-lead b p e = rw (begin, e) refl

-- A first byte of more than one.
decode_from-lead :
    (b : ℕ) (p : Pending) (bs : List ℕ)
    → lead b ≡ some p
    → 0 < p.needed
    → decode_from idle (b ∷ bs) ≡ decode_from p bs
unfolding decode_from
decode_from-lead b p bs e h =
    let more : eqb p.needed 0 ≡ false = ground arith in
    rw (step-idle b ∙ begin-lead b p e, more) (nil-append _)

lead-one :
    (n : ℕ) → n < 128 → lead n ≡ some (record { needed = 0; lower = 128; upper = 191; point = n })
unfolding lead
lead-one n h = ground arith

decode_from-ascii :
    (n : ℕ) (bs : List ℕ)
    → n < 128
    → decode_from idle (n ∷ bs) ≡ String.◌∷◌ (char_of n) (decode_from idle bs)
unfolding decode_from
decode_from-ascii n bs h = rw (step-idle n ∙ begin-lead n _ (lead-one n h), cons-append, nil-append)

-- The first byte of each length, with the bounds of the next.
lead-two :
    (a : ℕ)
    → 2 ≤ a
    → a < 32
    → lead (192 + a) ≡ some (record { needed = 1; lower = 128; upper = 191; point = a })
unfolding lead
lead-two a h h' = ground arith

abbrev Begins : ℕ → ℕ → ℕ → ℕ → Type 0
Begins first k second point =
    (p : Pending) × (lead first ≡ some p)
    × (p.needed ≡ k)
    × (p.lower ≤ second)
    × (second ≤ p.upper)
    × (p.point ≡ point)

-- `E0` and `ED` have bounds of their own, which keep out short forms and surrogates.
lead-three :
    (n : ℕ)
    → 2048 ≤ n
    → n < 65536
    → InRange n
    → Begins (224 + n / 4096) 2 (128 + n / 64 % 64) (n / 4096)
unfolding lead
lead-three n h h' r = elim (Bool-cases (eqb (n / 4096) 0)) [
  | inl low ↦ (
    record { needed = 2; lower = 160; upper = 191; point = 0 },
    ground arith,
    refl,
    ground arith,
    ground arith,
    ground arith,
  )
  | inr other ↦ elim (Bool-cases (eqb (n / 4096) 13)) [
    | inl below ↦ (
      record { needed = 2; lower = 128; upper = 159; point = 13 },
      ground arith,
      refl,
      ground arith,
      ground arith,
      ground arith,
    )
    | inr rest ↦ (
      record { needed = 2; lower = 128; upper = 191; point = n / 4096 },
      ground arith,
      refl,
      ground arith,
      ground arith,
      ground arith,
    )
  ]
]

lead-four :
    (n : ℕ) → 65536 ≤ n → InRange n → Begins (240 + n / 262144) 3 (128 + n / 4096 % 64) (n / 262144)
unfolding lead
lead-four n h r = elim (Bool-cases (eqb (n / 262144) 0)) [
  | inl low ↦ (
    record { needed = 3; lower = 144; upper = 191; point = 0 },
    ground arith,
    refl,
    ground arith,
    ground arith,
    ground arith,
  )
  | inr other ↦ elim (Bool-cases (eqb (n / 262144) 4)) [
    | inl top ↦ (
      record { needed = 3; lower = 128; upper = 143; point = 4 },
      ground arith,
      refl,
      ground arith,
      ground arith,
      ground arith,
    )
    | inr rest ↦ (
      record { needed = 3; lower = 128; upper = 191; point = n / 262144 },
      ground arith,
      refl,
      ground arith,
      ground arith,
      ground arith,
    )
  ]
]

point_is :
    (n m : ℕ) (bs : List ℕ)
    → m ≡ n
    → String.◌∷◌ (char_of m) (decode_from idle bs) ≡ String.◌∷◌ (char_of n) (decode_from idle bs)
point_is n m bs e = ap (λ k. String.◌∷◌ (char_of k) (decode_from idle bs)) e

-- The bytes of a character decode to it, whatever follows.
decode_from-utf8_char :
    (n : ℕ) (bs : List ℕ)
    → InRange n
    → decode_from idle (utf8_char n bs) ≡ String.◌∷◌ (char_of n) (decode_from idle bs)
unfolding utf8_char
decode_from-utf8_char n bs r = elim (Bool-cases (ltb n 128)) [
  | inl one ↦ rw one (decode_from-ascii n bs (ground arith))
  | inr more ↦ elim (Bool-cases (ltb n 2048)) [
    | inl two ↦
        rw (more, two)
          (decode_from-lead _ _ _ (lead-two (n / 64) (ground arith) (ground arith)) (omega arith)
            ∙ decode_from-last _ _ _ refl (omega arith) (omega arith)
            ∙ point_is n _ bs (omega arith))
    | inr more' ↦ elim (Bool-cases (ltb n 65536)) [
      | inl three ↦
          let (p, e, needs, low, high, at) = lead-three n (ground arith) (ground arith) r in
          rw (more, more', three)
            (decode_from-lead _ _ _ e (omega arith)
              ∙ decode_from-next _ _ _ (omega arith) low high
              ∙ decode_from-last _ _ _ (omega arith) (omega arith) (omega arith)
              ∙ point_is n _ bs (omega arith))
      | inr more'' ↦
          let (p, e, needs, low, high, at) = lead-four n (ground arith) r in
          rw (more, more', more'')
            (decode_from-lead _ _ _ e (omega arith)
              ∙ decode_from-next _ _ _ (omega arith) low high
              ∙ decode_from-next _ _ _ (omega arith) (omega arith) (omega arith)
              ∙ decode_from-last _ _ _ (omega arith) (omega arith) (omega arith)
              ∙ point_is n _ bs (omega arith))
    ]
  ]
]

decode_from-utf8 : (s : String) → decode_from idle (utf8 s) ≡ s
unfolding utf8 decode_from
decode_from-utf8 String.[] = refl
decode_from-utf8 (String.◌∷◌ c s) =
    decode_from-utf8_char (code c) (utf8 s) (InRange-code c)
    ∙ ap (λ d. String.◌∷◌ d (decode_from idle (utf8 s))) (char_of-code c)
    ∙ ap (String.◌∷◌ c) (decode_from-utf8 s)

-- The bytes of a text decode to the text.
pub utf8_decode-utf8 : (s : String) → utf8_decode (utf8 s) ≡ s
unfolding utf8_decode
utf8_decode-utf8 s = decode_from-utf8 s

All-utf8_char : (n : ℕ) (bs : List ℕ) → InRange n → All IsByte bs → All IsByte (utf8_char n bs)
unfolding utf8_char
All-utf8_char n bs r h = elim (Bool-cases (ltb n 128)) [
  | inl one ↦ rw one (ground arith, h)
  | inr more ↦ elim (Bool-cases (ltb n 2048)) [
    | inl two ↦ rw (more, two) (ground arith, (ground arith, h))
    | inr more' ↦ elim (Bool-cases (ltb n 65536)) [
      | inl three ↦ rw (more, more', three) (ground arith, (ground arith, (ground arith, h)))
      | inr more'' ↦
          rw (more, more', more'') (ground arith, (ground arith, (ground arith, (ground arith, h))))
    ]
  ]
]

pub All-utf8 : (s : String) → All IsByte (utf8 s)
unfolding utf8
All-utf8 String.[] = tt
All-utf8 (String.◌∷◌ c s) = All-utf8_char (code c) (utf8 s) (InRange-code c) (All-utf8 s)
