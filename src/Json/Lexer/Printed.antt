-- ===== src/Json/Lexer/Printed.antt =====
-- Each printed mark, word, number and text is read as what it was printed from.
use Prim.Native.Char.{Char, code}
use package.text.Mathlib.TextLemmas.{nil-append, cons-append, append_assoc, append-nil}
use mathlib.Core.List.{append_assoc as list_assoc}
use mathlib.Core.Path.{subst}
use mathlib.Core.Bool.{and-eq-true_iff}
use beckn_data_commons.Base.{
  ℕ, String, Bool, true, false, ◌&&◌, ◌||◌, leb, eqb, Option, none, some, List, [], ◌∷◌, ◌++◌, ◌≡◌,
  refl, sym, ◌∙◌, ap, arith, inl, inr, Bool-cases, ◌>>=◌,
}
use beckn_data_commons.Js.{Number, nat, number_text}
use beckn_data_commons.Js.Text.{◌<>◌, all_chars}
use beckn_data_commons.Js.Numeral.{is_digit, to_number, to_number-decimal}
use beckn_data_commons.Json.Print.{
  Token, Mark, Word, null_word, true_word, false_word, mark, word, number, quoted, left_bracket,
  right_bracket, left_brace, right_brace, comma, colon, token_text, word_text, mark_text, texts,
}
use beckn_data_commons.Json.Lexer.{
  between, in_number, in_word, start, moved, one, from_between, is_numeric, is_numeral,
  is_numeral_from, next_phase, number_token, word_token, step, at_end, lex,
}
use beckn_data_commons.Json.Lexer.Steps.{prepend, lex-moved, lex-token, lex-run, lex-closed}
use beckn_data_commons.Json.Lexer.Quoted.{lex-quote}
use beckn_data_commons.Json.Lexer.Numerals.{all_numeric, is_numeral-decimal}

abbrev is_lower : ℕ → Bool
is_lower n = leb b'a' n && leb n b'z'

-- What a word or a number does not go on with.
abbrev pub Stops : String → Type 0
Stops String.[] = Unit
Stops (String.◌∷◌ c s) = (is_numeric (code c) ≡ false) × (is_lower (code c) ≡ false)

-- A number that is read from its printed form.
abbrev pub Reads : (String → Number) → Number → Type 0
Reads other n = (is_numeral (number_text n) ≡ true) × (to_number other (number_text n) ≡ n)

pub Reads-nat : (other : String → Number) (n : _) → Reads other (nat n)
unfolding number_text
Reads-nat other n = (is_numeral-decimal n, to_number-decimal other n)

one_append : (c : Char) (t : String) → one c <> t ≡ String.◌∷◌ c t
one_append c t = simp (cons-append, nil-append)

start-other : (n : ℕ) → (eqb n b'-' || is_digit n) ≡ false → next_phase start n ≡ none
unfolding next_phase
start-other n h = ground (arith, h)

begins_number :
    (c : Char) (t : String)
    → is_numeral_from (next_phase start (code c)) t ≡ true
    → from_between (code c) c ≡ moved (in_number (one c))
unfolding is_numeral_from next_phase from_between
begins_number c t h = elim (Bool-cases (eqb (code c) b'-' || is_digit (code c))) [
  | inl begins ↦ ground (arith, begins)
  | inr other ↦
      let stuck : is_numeral_from none t ≡ true =
        subst (λ q. is_numeral_from q t ≡ true) (start-other (code c) other) h in
      cc
]

begins_word :
    (c : Char) → is_lower (code c) ≡ true → from_between (code c) c ≡ moved (in_word (one c))
unfolding from_between
begins_word c h = ground (arith, h)

word_ok :
    (w : Word)
    → (all_chars is_lower (word_text w) ≡ true) × (word_token (word_text w) ≡ some (word w))
unfolding all_chars word_token
word_ok null_word = (refl, refl)
word_ok true_word = (refl, refl)
word_ok false_word = (refl, refl)

texts-append : (xs ys : List Token) → texts (xs ++ ys) ≡ texts xs <> texts ys
unfolding texts
texts-append [] ys = rw nil-append refl
texts-append (x ∷ xs) ys =
    ap (λ t. token_text x <> t) (texts-append xs ys)
    ∙ sym (append_assoc (token_text x) (texts xs) (texts ys))

module _ (other : String → Number) where
  lex-number_end :
      (s rest : String) (n : Number)
      → number_token other s ≡ some (number n)
      → Stops rest
      → lex other (in_number s) rest ≡ prepend (number n) (lex other between rest)
  unfolding lex step at_end
  lex-number_end s String.[] n e h = rw (e, lex, at_end) refl
  lex-number_end s (String.◌∷◌ c r) n e (here, _) =
      lex-closed other (in_number s) (number n) c r (rw (step, here, e) refl)

  takes_numeric :
      (s : String) (c : Char)
      → is_numeric (code c) ≡ true
      → step other (in_number s) c ≡ moved (in_number (s <> one c))
  unfolding step
  takes_numeric s c h = rw h refl

  lex-numeral :
      (s rest : String) (n : Number)
      → is_numeral s ≡ true
      → to_number other s ≡ n
      → Stops rest
      → lex other between (s <> rest) ≡ prepend (number n) (lex other between rest)
  unfolding is_numeral is_numeral_from number_token step
  lex-numeral String.[] rest n form reads h = cc
  lex-numeral (String.◌∷◌ c t) rest n form reads h =
      let token : number_token other (one c <> t) ≡ some (number n) =
        rw (one_append c t, form) (ap (λ m. some (number m)) reads) in
      rw cons-append (
        lex-moved other between (in_number (one c)) c (t <> rest) (begins_number c t form)
        ∙ lex-run other in_number is_numeric takes_numeric (one c) t rest (all_numeric _ t form)
        ∙ lex-number_end (one c <> t) rest n token h)

  lex-word_end :
      (s rest : String) (w : Word)
      → word_token s ≡ some (word w)
      → Stops rest
      → lex other (in_word s) rest ≡ prepend (word w) (lex other between rest)
  unfolding lex step at_end
  lex-word_end s String.[] w e h = rw (e, lex, at_end) refl
  lex-word_end s (String.◌∷◌ c r) w e (_, here) =
      lex-closed other (in_word s) (word w) c r (rw (step, here, e) refl)

  takes_lower :
      (s : String) (c : Char)
      → is_lower (code c) ≡ true
      → step other (in_word s) c ≡ moved (in_word (s <> one c))
  unfolding step
  takes_lower s c h = rw h refl

  lex-letters :
      (s rest : String) (w : Word)
      → (all_chars is_lower s ≡ true) × (word_token s ≡ some (word w))
      → Stops rest
      → lex other between (s <> rest) ≡ prepend (word w) (lex other between rest)
  unfolding all_chars word_token step
  lex-letters String.[] rest w (form, token) h = cc
  lex-letters (String.◌∷◌ c t) rest w (form, token) h =
      let (first, others) = (and-eq-true_iff _ _).0 form in
      rw cons-append (
        lex-moved other between (in_word (one c)) c (t <> rest) (begins_word c first)
        ∙ lex-run other in_word is_lower takes_lower (one c) t rest others
        ∙ lex-word_end (one c <> t) rest w (rw (one_append c t) token) h)

  lex-word :
      (w : Word) (rest : String)
      → Stops rest
      → lex other between (word_text w <> rest) ≡ prepend (word w) (lex other between rest)
  lex-word w rest h = lex-letters (word_text w) rest w (word_ok w) h

  lex-mark :
      (m : Mark) (rest : String)
      → lex other between (mark_text m <> rest) ≡ prepend (mark m) (lex other between rest)
  unfolding step from_between
  lex-mark left_bracket rest =
      rw (cons-append, nil-append) (lex-token other between between _ rest (mark left_bracket) refl)
  lex-mark right_bracket rest =
      rw (cons-append, nil-append)
        (lex-token other between between _ rest (mark right_bracket) refl)
  lex-mark left_brace rest =
      rw (cons-append, nil-append) (lex-token other between between _ rest (mark left_brace) refl)
  lex-mark right_brace rest =
      rw (cons-append, nil-append) (lex-token other between between _ rest (mark right_brace) refl)
  lex-mark comma rest =
      rw (cons-append, nil-append) (lex-token other between between _ rest (mark comma) refl)
  lex-mark colon rest =
      rw (cons-append, nil-append) (lex-token other between between _ rest (mark colon) refl)

  -- What the lexer reads of the tokens that were printed, before any text, or where a word or a number
  -- may end.
  abbrev pub all_of : List Token → Option (List Token) → Option (List Token)
  all_of ts o = o >>= λ more. some (ts ++ more)

  abbrev pub Lexes : List Token → Type 0
  Lexes ts =
      (rest : String)
      → Stops rest
      → lex other between (texts ts <> rest) ≡ all_of ts (lex other between rest)

  abbrev pub LexesAny : List Token → Type 0
  LexesAny ts =
      (rest : String) → lex other between (texts ts <> rest) ≡ all_of ts (lex other between rest)

  all_of-append :
      (xs ys : List Token) (o : Option (List Token)) → all_of xs (all_of ys o) ≡ all_of (xs ++ ys) o
  all_of-append xs ys none = refl
  all_of-append xs ys (some more) = ap some (sym (list_assoc xs ys more))

  pub Lexes-append :
      (xs ys : List Token)
      → Lexes xs
      → ((rest : String) → Stops (texts ys <> rest))
      → LexesAny ys
      → LexesAny (xs ++ ys)
  Lexes-append xs ys hx stops hy rest =
      ap (lex other between)
        (ap (λ t. t <> rest) (texts-append xs ys) ∙ append_assoc (texts xs) (texts ys) rest)
      ∙ hx (texts ys <> rest) (stops rest)
      ∙ ap (all_of xs) (hy rest)
      ∙ all_of-append xs ys (lex other between rest)

  pub LexesAny-append : (xs ys : List Token) → LexesAny xs → LexesAny ys → LexesAny (xs ++ ys)
  LexesAny-append xs ys hx hy rest =
      ap (lex other between)
        (ap (λ t. t <> rest) (texts-append xs ys) ∙ append_assoc (texts xs) (texts ys) rest)
      ∙ hx (texts ys <> rest)
      ∙ ap (all_of xs) (hy rest)
      ∙ all_of-append xs ys (lex other between rest)

  pub LexesAny-mark : (m : Mark) → LexesAny (mark m ∷ [])
  unfolding texts
  LexesAny-mark m rest = rw append-nil (lex-mark m rest)

  pub LexesAny-quoted : (s : String) → LexesAny (quoted s ∷ [])
  unfolding texts
  LexesAny-quoted s rest = rw append-nil (lex-quote other s rest)

  pub Lexes-word : (w : Word) → Lexes (word w ∷ [])
  unfolding texts
  Lexes-word w rest h = rw append-nil (lex-word w rest h)

  pub Lexes-number : (n : Number) → Reads other n → Lexes (number n ∷ [])
  unfolding texts number_text is_numeral to_number
  Lexes-number n (form, reads) rest h =
      rw append-nil (lex-numeral (number_text n) rest n form reads h)
