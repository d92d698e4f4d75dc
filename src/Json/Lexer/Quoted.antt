-- ===== src/Json/Lexer/Quoted.antt =====
-- A quoted text is read as the text.
use Prim.Native.Char.{Char, char, code}
use Prim.Native.String
use text.Mathlib.TextLemmas.{nil-append, cons-append}
use mathlib.Core.List.{append_assoc as list_assoc, append-nil}
use beckn_data_commons.Base.{
  ℕ, suc, ◌+◌, ◌-◌, ◌*◌, ◌/◌, ◌%◌, ◌<◌, ◌≤◌, String, Bool, true, false, ◌&&◌, leb, ltb, eqb, some,
  List, [], ◌∷◌, ◌++◌, ◌≡◌, refl, sym, ◌∙◌, ap, arith, ◌⊎◌, inl, inr, Bool-cases,
}
use beckn_data_commons.Js.{Number}
use beckn_data_commons.Js.Text.{◌<>◌, units, char_units}
use beckn_data_commons.Js.Numeral.{all_below, all_below_sound}
use beckn_data_commons.Js.Base64.RoundTrip.{is, is_some_of}
use beckn_data_commons.Js.Scalar.{char_of, char_of-code}
use beckn_data_commons.Js.Scalar.RoundTrip.{InRange, InRange-code}
use beckn_data_commons.Json.Print.{quoted}
use beckn_data_commons.Json.Quote.{hex_digit, escape_char, escape, quote}
use beckn_data_commons.Json.Lexer.{
  between, from_between, in_text, escaped, unicode, moved, from_text, from_escape, from_unicode,
  hex_value, utf16_decode, step, lex,
}
use beckn_data_commons.Json.Lexer.Steps.{prepend, lex-moved, lex-token}

-- The two halves of a pair, and what is neither.
high_half :
    (m : ℕ) → m < 1048576 → (leb 55296 (55296 + m / 1024) && leb (55296 + m / 1024) 56319) ≡ true
high_half m h = ground arith

pair_point :
    (n : ℕ)
    → 65536 ≤ n
    → 65536 + (55296 + (n - 65536) / 1024 - 55296) * 1024 + (56320 + (n - 65536) % 1024 - 56320) ≡ n
pair_point n h = omega arith

low_half : (m : ℕ) → (leb 56320 (56320 + m % 1024) && leb (56320 + m % 1024) 57343) ≡ true
low_half m = ground arith

no_half : (n : ℕ) → InRange n → (leb 55296 n && leb n 56319) ≡ false
no_half n r = ground arith

-- The units of a text decode to the text.
utf16_decode-char :
    (n : ℕ) (us : List ℕ)
    → InRange n
    → utf16_decode (char_units n us) ≡ String.◌∷◌ (char_of n) (utf16_decode us)
unfolding utf16_decode
utf16_decode-char n us r = elim (Bool-cases (ltb n 65536)) [
  | inl one ↦ rw one (single us)
  | inr two ↦ rw two (
      rw (high_half (n - 65536) (ground arith), low_half (n - 65536))
        (ap (λ k. String.◌∷◌ (char_of k) (utf16_decode us)) (pair_point n (ground arith))))
]
  where
    single : (us : List ℕ) → utf16_decode (n ∷ us) ≡ String.◌∷◌ (char_of n) (utf16_decode us)
    single [] = refl
    single (v ∷ vs) = rw (no_half n r) refl

utf16_decode-units : (s : String) → utf16_decode (units s) ≡ s
unfolding units utf16_decode
utf16_decode-units String.[] = refl
utf16_decode-units (String.◌∷◌ c s) =
    utf16_decode-char (code c) (units s) (InRange-code c)
    ∙ ap (λ d. String.◌∷◌ d (utf16_decode (units s))) (char_of-code c)
    ∙ ap (String.◌∷◌ c) (utf16_decode-units s)

char_units-append : (n : ℕ) (us : List ℕ) → char_units n us ≡ char_units n [] ++ us
char_units-append n us = elim (Bool-cases (ltb n 65536)) [
  | inl one ↦ rw one refl
  | inr two ↦ rw two refl
]

abbrev hex_ok : ℕ → Bool
hex_ok d = is d (hex_value (code (hex_digit d)))

hex_table : all_below 16 hex_ok ≡ true
unfolding hex_digit hex_value
hex_table = refl

hex_digit-value : (d : ℕ) → d < 16 → hex_value (code (hex_digit d)) ≡ some d
hex_digit-value d h = is_some_of d _ (all_below_sound 16 hex_ok d hex_table h)

-- A character is written after a backslash, by its number, or as it is.
abbrev backslash : Char
backslash = char 92 tt

abbrev Short : Char → Type 0
Short c =
    (k : Char) × (code c < 65536)
    × ((us : List ℕ) → from_escape us (code k) ≡ moved (in_text (us ++ code c ∷ [])))
    × ((s : String) → escape_char c s ≡ String.◌∷◌ backslash (String.◌∷◌ k s))

abbrev by_number : Char → String → String
by_number c s =
    let zero_char = char b'0' tt in
    String.◌∷◌ backslash (
      String.◌∷◌ (char b'u' tt) (
        String.◌∷◌ zero_char (
          String.◌∷◌ zero_char
            (String.◌∷◌ (hex_digit (code c / 16)) (String.◌∷◌ (hex_digit (code c % 16)) s)))))

abbrev Numbered : Char → Type 0
Numbered c = (code c < 32) × ((s : String) → escape_char c s ≡ by_number c s)

abbrev Plain : Char → Type 0
Plain c =
    ((us : List ℕ) → from_text us (code c) ≡ moved (in_text (us ++ char_units (code c) [])))
    × ((s : String) → escape_char c s ≡ String.◌∷◌ c s)

Short-escape_char :
    (c k : Char) (n : ℕ)
    → eqb (code c) n ≡ true
    → n < 65536
    → ((us : List ℕ) → from_escape us (code k) ≡ moved (in_text (us ++ n ∷ [])))
    → ((s : String) → escape_char c s ≡ String.◌∷◌ backslash (String.◌∷◌ k s))
    → Short c
Short-escape_char c k n e h reads prints =
    let same : n ≡ code c = ground arith in
    (k, ground arith, λ us. reads us ∙ ap (λ m. moved (in_text (us ++ m ∷ []))) same, prints)

two_chars :
    (a b : Char) (s : String)
    → String.◌++◌ (String.◌∷◌ a (String.◌∷◌ b "")) s ≡ String.◌∷◌ a (String.◌∷◌ b s)
two_chars a b s = simp (cons-append, nil-append)

four_chars :
    (a b c d : Char) (s : String)
    → String.◌++◌ (String.◌∷◌ a (String.◌∷◌ b (String.◌∷◌ c (String.◌∷◌ d "")))) s
      ≡ String.◌∷◌ a (String.◌∷◌ b (String.◌∷◌ c (String.◌∷◌ d s)))
four_chars a b c d s = simp (cons-append, nil-append)

escape_char-cases : (c : Char) → Short c ⊎ (Numbered c ⊎ Plain c)
unfolding escape_char from_escape from_text
escape_char-cases c = elim (Bool-cases (eqb (code c) 34)) [
  | inl e ↦ inl (
      Short-escape_char c (char 34 tt) 34 e (omega arith) (λ us. refl)
        (λ s. rw e (two_chars _ _ s)))
  | inr e34 ↦ elim (Bool-cases (eqb (code c) 92)) [
    | inl e ↦ inl (
        Short-escape_char c (char 92 tt) 92 e (omega arith) (λ us. refl)
          (λ s. rw (e34, e) (two_chars _ _ s)))
    | inr e92 ↦ elim (Bool-cases (eqb (code c) 8)) [
      | inl e ↦ inl (
          Short-escape_char c (char b'b' tt) 8 e (omega arith) (λ us. refl)
            (λ s. rw (e34, e92, e) (two_chars _ _ s)))
      | inr e8 ↦ elim (Bool-cases (eqb (code c) 9)) [
        | inl e ↦ inl (
            Short-escape_char c (char b't' tt) 9 e (omega arith) (λ us. refl)
              (λ s. rw (e34, e92, e8, e) (two_chars _ _ s)))
        | inr e9 ↦ elim (Bool-cases (eqb (code c) 10)) [
          | inl e ↦ inl (
              Short-escape_char c (char b'n' tt) 10 e (omega arith) (λ us. refl)
                (λ s. rw (e34, e92, e8, e9, e) (two_chars _ _ s)))
          | inr e10 ↦ elim (Bool-cases (eqb (code c) 12)) [
            | inl e ↦ inl (
                Short-escape_char c (char b'f' tt) 12 e (omega arith) (λ us. refl)
                  (λ s. rw (e34, e92, e8, e9, e10, e) (two_chars _ _ s)))
            | inr e12 ↦ elim (Bool-cases (eqb (code c) 13)) [
              | inl e ↦ inl (
                  Short-escape_char c (char b'r' tt) 13 e (omega arith) (λ us. refl)
                    (λ s. rw (e34, e92, e8, e9, e10, e12, e) (two_chars _ _ s)))
              | inr e13 ↦ elim (Bool-cases (ltb (code c) 32)) [
                | inl low ↦ inr (
                    inl (
                      ground (arith, low),
                      λ s. rw (e34, e92, e8, e9, e10, e12, e13, low) (four_chars _ _ _ _ _),
                    ))
                | inr high ↦ inr (
                    inr (
                      λ us. rw (e34, e92, high) refl,
                      λ s. rw (e34, e92, e8, e9, e10, e12, e13, high) refl,
                    ))
              ]
            ]
          ]
        ]
      ]
    ]
  ]
]

one_unit : (n : ℕ) → n < 65536 → char_units n [] ≡ n ∷ []
one_unit n h = ground arith

number_unit : (n : ℕ) → n < 65536 → ((0 * 16 + n / 16) * 16 + n % 16) ∷ [] ≡ char_units n []
number_unit n h = ap (λ m. m ∷ []) (omega arith) ∙ sym (one_unit n h)

escape_char-append :
    (c : Char) (s rest : String) → escape_char c s <> rest ≡ escape_char c (s <> rest)
escape_char-append c s rest = elim (escape_char-cases c) [
  | inl (k, _, _, prints) ↦ rw (prints s, prints (s <> rest)) (simp cons-append)
  | inr (inl (_, prints)) ↦ rw (prints s, prints (s <> rest)) (simp cons-append)
  | inr (inr (_, prints)) ↦ rw (prints s, prints (s <> rest)) (simp cons-append)
]

module _ (other : String → Number) where
  lex-digit :
      (us : List ℕ) (k so_far d : ℕ) (c : Char) (s : String)
      → hex_value (code c) ≡ some d
      → lex other (unicode us (suc (suc k)) so_far) (String.◌∷◌ c s)
        ≡ lex other (unicode us (suc k) (so_far * 16 + d)) s
  unfolding step from_unicode
  lex-digit us k so_far d c s e =
      lex-moved other (unicode us (suc (suc k)) so_far) (unicode us (suc k) (so_far * 16 + d)) c s
        (rw e refl)

  lex-last :
      (us : List ℕ) (so_far d : ℕ) (c : Char) (s : String)
      → hex_value (code c) ≡ some d
      → lex other (unicode us 1 so_far) (String.◌∷◌ c s)
        ≡ lex other (in_text (us ++ (so_far * 16 + d) ∷ [])) s
  unfolding step from_unicode
  lex-last us so_far d c s e =
      lex-moved other (unicode us 1 so_far) (in_text (us ++ (so_far * 16 + d) ∷ [])) c s (rw e refl)

  -- A character that was written is read as its units.
  lex-escape_char :
      (us : List ℕ) (c : Char) (s : String)
      → lex other (in_text us) (escape_char c s)
        ≡ lex other (in_text (us ++ char_units (code c) [])) s
  unfolding step
  lex-escape_char us c s = elim (escape_char-cases c) [
    | inl (k, small, reads, prints) ↦ rw (prints s) (
        lex-moved other (in_text us) (escaped us) backslash _ (unfold from_text in refl)
        ∙ lex-moved other (escaped us) (in_text (us ++ code c ∷ [])) k s (reads us)
        ∙ ap (λ vs. lex other (in_text (us ++ vs)) s) (sym (one_unit (code c) small)))
    | inr (inl (low, prints)) ↦
        let zero_char = char b'0' tt in
        let high = code c / 16 in
        let low_digit = code c % 16 in
        rw (prints s) (
          lex-moved other (in_text us) (escaped us) backslash _ (unfold from_text in refl)
          ∙ lex-moved other (escaped us) (unicode us 4 0) (char b'u' tt) _
              (unfold from_escape in refl)
          ∙ lex-digit us 2 0 0 zero_char _ (unfold hex_value in refl)
          ∙ lex-digit us 1 0 0 zero_char _ (unfold hex_value in refl)
          ∙ lex-digit us 0 0 high (hex_digit high) _ (hex_digit-value high (omega arith))
          ∙ lex-last us (0 * 16 + high) low_digit (hex_digit low_digit) s
              (hex_digit-value low_digit (omega arith))
          ∙ ap (λ vs. lex other (in_text (us ++ vs)) s) (number_unit (code c) (omega arith)))
    | inr (inr (reads, prints)) ↦
        rw (prints s)
          (lex-moved other (in_text us) (in_text (us ++ char_units (code c) [])) c s (reads us))
  ]

  lex-escape :
      (us : List ℕ) (s rest : String)
      → lex other (in_text us) (escape s <> rest)
        ≡ prepend (quoted (utf16_decode (us ++ units s))) (lex other between rest)
  unfolding escape units
  lex-escape us String.[] rest =
      rw (cons-append, nil-append)
        (lex-token other (in_text us) between (char 34 tt) rest (quoted (utf16_decode us))
            (unfold step from_text in refl)
          ∙ ap (λ vs. prepend (quoted (utf16_decode vs)) (lex other between rest))
              (sym (append-nil us)))
  lex-escape us (String.◌∷◌ c s) rest =
      ap (lex other (in_text us)) (escape_char-append c (escape s) rest)
      ∙ lex-escape_char us c (escape s <> rest)
      ∙ lex-escape (us ++ char_units (code c) []) s rest
      ∙ ap (λ vs. prepend (quoted (utf16_decode vs)) (lex other between rest))
          (list_assoc us _ _ ∙ ap (λ vs. us ++ vs) (sym (char_units-append (code c) (units s))))

  -- A quoted text is read as the text.
  pub lex-quote :
      (s rest : String)
      → lex other between (quote s <> rest) ≡ prepend (quoted s) (lex other between rest)
  unfolding quote
  lex-quote s rest =
      rw (cons-append, nil-append, cons-append)
        (lex-moved other between (in_text []) (char 34 tt) (escape s <> rest)
            (unfold step from_between in refl)
          ∙ lex-escape [] s rest
          ∙ ap (λ t. prepend (quoted t) (lex other between rest)) (utf16_decode-units s))
