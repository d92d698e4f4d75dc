-- ===== src/Auth/Header/RoundTrip.antt =====
-- The parser reads back the fields of a printed header.
use Prim.Native.Char.{Char, code}
use Prim.Native.String
use text.Mathlib.TextLemmas.{nil-append, cons-append, append_assoc, append-nil}
use mathlib.Core.Bool.{and-eq-true_iff}
use beckn_data_commons.Base.{
  ℕ, String, Bool, true, false, ◌&&◌, ◌==◌, some, List, [], ◌∷◌, ◌≡◌, refl, arith,
}
use beckn_data_commons.Js.{Number, nat, decimal}
use beckn_data_commons.Js.Text.{all_chars}
use beckn_data_commons.Js.Numeral.{to_number-decimal, decimal-ne-empty, is_digit-decimal, is_digit}
use beckn_data_commons.Auth.Header.{
  print_header, not_quote, Mode, word, equals, value, matches, push, next_mode, found, parse_header,
  param, has_scheme, after_space,
}

push-append :
    (s : String) (c : Char) (t : String) → String.◌++◌ (push s c) t ≡ String.◌++◌ s (String.◌∷◌ c t)
push-append s c t = simp (append_assoc, cons-append, nil-append)

-- A value without quotes is matched up to the quote that closes it.
matches-value :
    (name seen v rest : String)
    → all_chars not_quote v ≡ true
    → matches (value name seen) (String.◌++◌ v (String.◌++◌ "\"" rest))
      ≡ (name, String.◌++◌ seen v) ∷ matches (word "") rest
unfolding matches all_chars
matches-value name seen String.[] rest h = rw (nil-append, append-nil, cons-append, nil-append)
matches-value name seen (String.◌∷◌ c v) rest h =
    simp (cons-append)
      (ground (arith, matches-value name (push seen c) v rest, push-append seen c v))

-- A text that completes no match moves the search on.
advance : Mode → String → Mode
advance mode String.[] = mode
advance mode (String.◌∷◌ c s) = advance (next_mode mode (code c) c) s

silent : Mode → ℕ → Bool
silent (value w v) n = not_quote n
silent _ n = true

is_quiet : Mode → String → Bool
unfolding silent
is_quiet mode String.[] = true
is_quiet mode (String.◌∷◌ c s) = silent mode (code c) && is_quiet (next_mode mode (code c) c) s

found-silent :
    (mode : Mode) (n : ℕ) (rest : List (String × String))
    → silent mode n ≡ true
    → found mode n rest ≡ rest
unfolding silent
found-silent (word w) n rest h = refl
found-silent (equals w) n rest h = refl
found-silent (value w v) n rest h = ground arith

matches-quiet :
    (mode : Mode) (s rest : String)
    → is_quiet mode s ≡ true
    → matches mode (String.◌++◌ s rest) ≡ matches (advance mode s) rest
unfolding matches advance is_quiet
matches-quiet mode String.[] rest h = rw nil-append
matches-quiet mode (String.◌∷◌ c s) rest h =
    let (here, later) = (and-eq-true_iff _ _).0 h in
    rw (
      cons-append,
      found-silent mode (code c) _ here,
      matches-quiet (next_mode mode (code c) c) s rest later,
    )

-- From a text `name="` up to the value that follows.
abbrev Opens : String → String → Type 0
Opens text name = (is_quiet (word "") text ≡ true) × (advance (word "") text ≡ value name "")

matches-param :
    (text name v rest : String)
    → Opens text name
    → all_chars not_quote v ≡ true
    → matches (word "") (String.◌++◌ text (String.◌++◌ v (String.◌++◌ "\"" rest)))
      ≡ (name, v) ∷ matches (word "") rest
matches-param text name v rest (quiet, goes) h =
    rw (matches-quiet (word "") text _ quiet, goes, matches-value name "" v rest h, nil-append)

has_scheme-append :
    (p s rest : String) → has_scheme p s ≡ true → has_scheme p (String.◌++◌ s rest) ≡ true
unfolding has_scheme
has_scheme-append String.[] String.[] rest h = cc
has_scheme-append String.[] (String.◌∷◌ c s) rest h = rw cons-append h
has_scheme-append (String.◌∷◌ d p) String.[] rest h = cc
has_scheme-append (String.◌∷◌ d p) (String.◌∷◌ c s) rest h =
    rw cons-append (ground (arith, has_scheme-append p s rest))

after_space-append :
    (s t rest : String)
    → after_space s ≡ some t
    → after_space (String.◌++◌ s rest) ≡ some (String.◌++◌ t rest)
unfolding after_space
after_space-append String.[] t rest h = cc
after_space-append (String.◌∷◌ c s) t rest h =
    rw cons-append (ground (arith, after_space-append s t rest))

-- A text without quotes that is not empty, as the fields of a header are.
abbrev pub IsFieldText : String → Type 0
IsFieldText s = ((s == "") ≡ false) × (all_chars not_quote s ≡ true)

not_quote_of_digit : (s : String) → all_chars is_digit s ≡ true → all_chars not_quote s ≡ true
unfolding all_chars
not_quote_of_digit String.[] h = refl
not_quote_of_digit (String.◌∷◌ c s) h = ground (arith, not_quote_of_digit s)

IsFieldText-decimal : (n : ℕ) → IsFieldText (decimal n)
IsFieldText-decimal n = (decimal-ne-empty n, not_quote_of_digit _ (is_digit-decimal n))

module _ (key_id created expires nonce signature : String) (k : IsFieldText key_id)
    (c : IsFieldText created) (e : IsFieldText expires) (n : IsFieldText nonce)
    (s : IsFieldText signature) where
  matches-fields :
      matches (word "") (
        param "keyId=\"" key_id (
          param ",algorithm=\"" "ed25519" (
            param ",created=\"" created (
              param ",expires=\"" expires
                (param ",nonce=\"" nonce (param ",signature=\"" signature ""))))))
      ≡ ("keyId", key_id)
        ∷ ("algorithm", "ed25519")
        ∷ ("created", created)
        ∷ ("expires", expires)
        ∷ ("nonce", nonce)
        ∷ ("signature", signature)
        ∷ []
  unfolding is_quiet advance matches all_chars
  matches-fields = rw (
    matches-param "keyId=\"" "keyId" key_id _ (refl, refl) k.1,
    matches-param ",algorithm=\"" "algorithm" "ed25519" _ (refl, refl) refl,
    matches-param ",created=\"" "created" created _ (refl, refl) c.1,
    matches-param ",expires=\"" "expires" expires _ (refl, refl) e.1,
    matches-param ",nonce=\"" "nonce" nonce _ (refl, refl) n.1,
    matches-param ",signature=\"" "signature" signature _ (refl, refl) s.1,
  )

-- Parsing the header that a signer prints gives back its fields, for texts that are not empty and
-- hold no quote; the times come back as the numbers that they are.
pub parse_header-print_header :
    (other : String → Number) (key_id nonce signature : String) (created expires : ℕ)
    → IsFieldText key_id
    → IsFieldText nonce
    → IsFieldText signature
    → parse_header other (print_header key_id (decimal created) (decimal expires) nonce signature)
      ≡ some (record {
        key_id = key_id;
        created = nat created;
        expires = nat expires;
        nonce = nonce;
        signature = signature;
      })
unfolding parse_header print_header
parse_header-print_header other key_id nonce signature created expires k n s =
    let tail = param "keyId=\"" key_id (
      param ",algorithm=\"" "ed25519" (
        param ",created=\"" (decimal created) (
          param ",expires=\"" (decimal expires)
            (param ",nonce=\"" nonce (param ",signature=\"" signature ""))))) in
    let c = IsFieldText-decimal created in
    let e = IsFieldText-decimal expires in
    rw (
      has_scheme-append "signature" "Signature " tail refl,
      after_space-append "Signature " "" tail refl,
      nil-append,
      matches-fields key_id (decimal created) (decimal expires) nonce signature k c e n s,
      k.0,
      n.0,
      s.0,
      c.0,
      e.0,
      to_number-decimal other created,
      to_number-decimal other expires,
    )
