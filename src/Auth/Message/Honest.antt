-- ===== src/Auth/Message/Honest.antt =====
-- A message that a participant signs is genuine to whoever knows its key.
use Prim.Native.String.{count}
use text.Mathlib.TextLemmas.{append-eq-nil_iff}
use beckn_data_commons.Js.Numeral.{cons-ne-empty}
use beckn_data_commons.Base.{
  ℕ, ◌+◌, ◌/◌, ◌≤◌, String, true, false, some, ◌≡◌, refl, ◌∙◌, arith, eq_iff, or_else, Bool-cases,
  inl, inr, ◌==◌,
}
use beckn_data_commons.Js.{Number, nat, gt_nat, lt_diff, number_text, decimal}
use beckn_data_commons.Js.Text.{all_chars}
use beckn_data_commons.Json.{Json, wire}
use beckn_data_commons.Json.Wire.{wire-wire}
use beckn_data_commons.Canonical.Wire.{canonical_json-wire}
use beckn_data_commons.Ed25519.{Noble, IsNoble, is_lower_hex, sign, public_key_for}
use beckn_data_commons.Ed25519.RoundTrip.{verify-sign, sign_total}
use beckn_data_commons.Auth.Header.{
  ParsedHeader, print_header, parse_header, present, ◌++◌, not_quote,
}
use beckn_data_commons.Auth.Header.RoundTrip.{parse_header-print_header, IsFieldText}
use beckn_data_commons.Auth.Message.{
  VerifyOptions, SignOptions, signing_base, sign_message, signature_ok,
}
use beckn_data_commons.Auth.Message.Accepted.{IsGenuine, now_sec, skew_of}

abbrev pub ttl_of : SignOptions → ℕ
ttl_of opts = or_else opts.ttl_seconds 30

abbrev pub created_of : SignOptions → ℕ
created_of opts = opts.now_ms / 1000

-- the header that a signer means to send
abbrev pub header_of : SignOptions → String → ParsedHeader
header_of opts signature = record {
  key_id = opts.key_id;
  created = nat (created_of opts);
  expires = nat (created_of opts + ttl_of opts);
  nonce = opts.nonce;
  signature = signature;
}

signing_base_total :
    (key_id created expires nonce : String) (body : Json)
    → (base : String) × (signing_base key_id created expires nonce body ≡ some base)
unfolding signing_base
signing_base_total key_id created expires nonce body =
    let (text, e) = canonical_json-wire body in
    (
      key_id ++ "\n" ++ created ++ "\n" ++ expires ++ "\n" ++ nonce ++ "\n" ++ text,
      rw (e, signing_base),
    )

signing_base-wire :
    (key_id created expires nonce : String) (body : Json)
    → signing_base key_id created expires nonce (wire body)
      ≡ signing_base key_id created expires nonce body
unfolding signing_base
signing_base-wire key_id created expires nonce body = rw (wire-wire body)

append-present : (s t : String) → (s == "") ≡ false → present (some (s ++ t)) ≡ some (s ++ t)
append-present s t h = elim (Bool-cases (s ++ t == "")) [
  | inl e ↦
      let nil = (append-eq-nil_iff.0 ((eq_iff (s ++ t) "").0 e)).0 in cc (h, (eq_iff s "").1 nil)
  | inr e ↦ rw e
]

print_header-present :
    (key_id created expires nonce signature : String)
    → present (some (print_header key_id created expires nonce signature))
      ≡ some (print_header key_id created expires nonce signature)
unfolding print_header
print_header-present key_id created expires nonce signature = append-present "Signature " _ refl

no_quote_of_hex : (s : String) → all_chars is_lower_hex s ≡ true → all_chars not_quote s ≡ true
unfolding all_chars
no_quote_of_hex String.[] low = refl
no_quote_of_hex (String.◌∷◌ c s) low = ground (arith, no_quote_of_hex s)

IsFieldText-of_hex : (s : String) → all_chars is_lower_hex s ≡ true → count s ≡ 128 → IsFieldText s
IsFieldText-of_hex String.[] low long = absurd (omega (arith, long))
IsFieldText-of_hex (String.◌∷◌ c s) low long = (cons-ne-empty c s, no_quote_of_hex _ low)

module _ (noble : Noble) (laws : IsNoble noble) (other : String → Number) (body : Json)
    (opts : SignOptions) (public_key : String)
    (derived : public_key_for noble opts.private_key_hex ≡ some public_key)
    (named : IsFieldText opts.key_id) (nonce : IsFieldText opts.nonce) where
  -- The message is signed, and its header reads back.
  sign_message-parses :
      (signature base header : String) × (signing_base opts.key_id
          (decimal (created_of opts))
          (decimal (created_of opts + ttl_of opts))
          opts.nonce
          body
        ≡ some base)
      × (sign noble base opts.private_key_hex ≡ some signature)
      × (sign_message noble body opts ≡ some header)
      × (present (some header) ≡ some header)
      × (parse_header other header ≡ some (header_of opts signature))
  sign_message-parses =
      let created = decimal (created_of opts) in
      let expires = decimal (created_of opts + ttl_of opts) in
      let (base, based) = signing_base_total opts.key_id created expires opts.nonce body in
      let (signature, signed, low, long) =
        sign_total noble laws base opts.private_key_hex derived in
      let header = print_header opts.key_id created expires opts.nonce signature in
      (
        signature,
        base,
        header,
        based,
        signed,
        unfold sign_message in rw (based, signed),
        print_header-present opts.key_id created expires opts.nonce signature,
        parse_header-print_header other opts.key_id opts.nonce signature (created_of opts)
            (created_of opts + ttl_of opts) named nonce (IsFieldText-of_hex signature low long),
      )

  -- A message that is signed, delivered as what crossed the wire, is genuine to a verifier that
  -- holds the signer's public key, at any time of its clock within the window and its tolerance.
  pub sign_message-IsGenuine :
      (checker : VerifyOptions)
      → present (checker.resolve_key opts.key_id) ≡ some public_key
      → created_of opts ≤ now_sec checker + skew_of checker
      → now_sec checker ≤ created_of opts + ttl_of opts + skew_of checker
      → (signature header : String) × (sign_message noble body opts ≡ some header)
        × IsGenuine noble other (wire body) checker (some header) (header_of opts signature)
  sign_message-IsGenuine checker trusted begun not_over =
      let (signature, base, header, based, signed, sent, given, parsed) = sign_message-parses in
      (
        signature,
        header,
        sent,
        record {
          text = header;
          given = given;
          parsed = parsed;
          public_key = public_key;
          trusted = trusted;
          begun = unfold gt_nat in ground arith;
          not_over = unfold lt_diff in ground arith;
          signed =
              unfold signature_ok number_text in
              rw (signing_base-wire opts.key_id _ _ opts.nonce body ∙ based, signature_ok)
                (verify-sign noble laws base opts.private_key_hex signed derived);
        },
      )
