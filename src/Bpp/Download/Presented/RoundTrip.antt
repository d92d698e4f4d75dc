-- ===== src/Bpp/Download/Presented/RoundTrip.antt =====
-- A grant that is presented is read as it was encoded.
use Prim.Native.Char.{Char, code}
use text.Mathlib.TextLemmas.{nil-append, cons-append, append_assoc}
use mathlib.Core.Path.{subst}
use mathlib.Core.Bool.{and-eq-true_iff}
use beckn_data_commons.Base.{
  ℕ, String, true, false, ◌==◌, none, some, ◌≡◌, refl, ◌∙◌, ap, arith, inl, inr, Bool-cases, eq_iff,
}
use beckn_data_commons.Js.{Number}
use beckn_data_commons.Js.Text.{◌<>◌, utf8, all_chars}
use beckn_data_commons.Js.Space.{is_space, trim_start, trim_end, trim}
use beckn_data_commons.Js.Numeral.{cons-ne-empty}
use beckn_data_commons.Js.Scalar.{utf8_decode, decode_from}
use beckn_data_commons.Js.Scalar.RoundTrip.{utf8_decode-utf8, All-utf8}
use beckn_data_commons.Js.Base64.{is_letter, to_base64url, from_base64url, bytes_of, sextets}
use beckn_data_commons.Js.Base64.RoundTrip.{from_base64url-to_base64url, Letters-to_base64url}
use beckn_data_commons.Json.{Json}
use beckn_data_commons.Json.Texts.{without_prefix-append}
use beckn_data_commons.Json.Print.{json_stringify}
use beckn_data_commons.Json.Lexer.RoundTrip.{NumbersRead}
use beckn_data_commons.Json.Lexer.{lex, at_end}
use beckn_data_commons.Json.Parser.{json_parse, parse_tokens}
use beckn_data_commons.Json.Parser.RoundTrip.{read_back, json_parse-json_stringify}
use beckn_data_commons.Bpp.Download.Presented.{
  encode_presented_grant, after_spaces, after_letters, is_token, grant_token, parse_presented_grant,
}

abbrev Letters : String → Type 0
Letters s = all_chars is_letter s ≡ true

Letters-cons :
    (c : Char) (s : String) → Letters (String.◌∷◌ c s) → (is_letter (code c) ≡ true) × Letters s
unfolding all_chars
Letters-cons c s h = (and-eq-true_iff _ _).0 h

not_space : (n : ℕ) → is_letter n ≡ true → is_space n ≡ false
not_space n h = ground (arith, h)

trim_start-Letters : (s : String) → Letters s → trim_start s ≡ s
unfolding trim_start all_chars
trim_start-Letters String.[] h = refl
trim_start-Letters (String.◌∷◌ c s) h = rw (not_space (code c) (Letters-cons c s h).0) refl

trim_end-Letters : (s : String) → Letters s → trim_end s ≡ s
unfolding trim_end all_chars
trim_end-Letters String.[] h = refl
trim_end-Letters (String.◌∷◌ c s) h =
    let (here, later) = Letters-cons c s h in
    rw (not_space (code c) here) (ap (String.◌∷◌ c) (trim_end-Letters s later))

append-ne-empty : (p t : String) → (t == "") ≡ false → (p <> t == "") ≡ false
append-ne-empty String.[] t h = rw nil-append h
append-ne-empty (String.◌∷◌ c p) t h = rw cons-append (cons-ne-empty c (p <> t))

-- The end of a text that ends in something else than spaces stays.
trim_end-append : (p t : String) → (t == "") ≡ false → trim_end t ≡ t → trim_end (p <> t) ≡ p <> t
unfolding trim_end
trim_end-append String.[] t h e = rw nil-append e
trim_end-append (String.◌∷◌ c p) t h e = elim (Bool-cases (is_space (code c))) [
  | inl space ↦ rw cons-append (rw (trim_end-append p t h e, append-ne-empty p t h, space) refl)
  | inr other ↦ rw cons-append (rw (trim_end-append p t h e, other) refl)
]

after_letters-Letters : (s : String) → Letters s → after_letters s ≡ ""
unfolding after_letters all_chars
after_letters-Letters String.[] h = refl
after_letters-Letters (String.◌∷◌ c s) h =
    let (here, later) = Letters-cons c s h in rw here (after_letters-Letters s later)

is_token-Letters : (s : String) → (s == "") ≡ false → Letters s → is_token s ≡ true
unfolding is_token all_chars
is_token-Letters String.[] given h = cc
is_token-Letters (String.◌∷◌ c s) given h =
    let (here, later) = Letters-cons c s h in rw (here, after_letters-Letters s later) refl

trim-header : (t : String) → (t == "") ≡ false → Letters t → trim ("Grant " <> t) ≡ "Grant " <> t
trim-header t given h =
    let begins : trim_start ("Grant " <> t) ≡ "Grant " <> t =
      unfold trim_start in rw cons-append refl in
    ap trim_end begins ∙ trim_end-append "Grant " t given (trim_end-Letters t h)

after_spaces-Letters : (t : String) → Letters t → after_spaces (" " <> t) ≡ some t
unfolding after_spaces
after_spaces-Letters t h = rw (cons-append, nil-append) (ap some (trim_start-Letters t h))

grant_token-header :
    (t : String) → (t == "") ≡ false → Letters t → grant_token (trim ("Grant " <> t)) ≡ some t
unfolding grant_token
grant_token-header t given h =
    let whole : trim ("Grant " <> t) ≡ "Grant" <> (" " <> t) =
      trim-header t given h ∙ append_assoc "Grant" " " t in
    rw (whole, without_prefix-append "Grant" (" " <> t), after_spaces-Letters t h)
      (rw (is_token-Letters t given h) refl)

empty_fails : (other : String → Number) → json_parse other (utf8_decode (from_base64url "")) ≡ none
unfolding json_parse lex at_end parse_tokens utf8_decode decode_from from_base64url bytes_of sextets
empty_fails other = refl

module _ (other : String → Number) (v : Json) (h : NumbersRead other v) where
  read_token :
      json_parse other (utf8_decode (from_base64url (to_base64url (utf8 (json_stringify v)))))
      ≡ some (read_back v)
  read_token =
      ap (λ bs. json_parse other (utf8_decode bs))
        (from_base64url-to_base64url (utf8 (json_stringify v)) (All-utf8 (json_stringify v)))
      ∙ ap (json_parse other) (utf8_decode-utf8 (json_stringify v))
      ∙ json_parse-json_stringify other v h

  -- No text of JSON is empty.
  token-ne-empty : (to_base64url (utf8 (json_stringify v)) == "") ≡ false
  token-ne-empty = elim (Bool-cases (to_base64url (utf8 (json_stringify v)) == "")) [
    | inl empty ↦
        let nothing : json_parse other (utf8_decode (from_base64url "")) ≡ some (read_back v) =
          subst (λ t. json_parse other (utf8_decode (from_base64url t)) ≡ some (read_back v))
            ((eq_iff _ _).0 empty) read_token in
        let fails : json_parse other (utf8_decode (from_base64url "")) ≡ none = empty_fails other in
        absurd (cc)
    | inr given ↦ given
  ]

  -- A value that was encoded for the header `Authorization` is read there as what `JSON.parse` reads of
  -- its text.
  pub parse_presented_grant-encode_presented_grant :
      parse_presented_grant other (some (encode_presented_grant v)) ≡ read_back v
  unfolding parse_presented_grant encode_presented_grant
  parse_presented_grant-encode_presented_grant =
      let token = to_base64url (utf8 (json_stringify v)) in
      let letters = Letters-to_base64url (utf8 (json_stringify v)) (All-utf8 (json_stringify v)) in
      rw
        (
          append-ne-empty "Grant " token token-ne-empty,
          grant_token-header token token-ne-empty letters,
          read_token,
        )
        refl
