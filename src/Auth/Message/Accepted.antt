-- ===== src/Auth/Message/Accepted.antt =====
-- What an accepted message was checked for.
use beckn_data_commons.Base.{
  ℕ, ◌+◌, ◌/◌, String, true, false, Option, none, some, ◌≡◌, ◌⊎◌, ◌∙◌, arith, or_else, Option-cases,
  inl, inr, refl,
}
use beckn_data_commons.Js.{Number, gt_nat, lt_diff}
use beckn_data_commons.Json.{Json}
use beckn_data_commons.Ed25519.{Noble}
use beckn_data_commons.Auth.ReplayCache.{ReplayCache}
use beckn_data_commons.Auth.Header.{ParsedHeader, parse_header, present}
use beckn_data_commons.Auth.Message.{
  accepted, refused, unknown_key, VerifyReason, VerifyResult, VerifyOptions, check_replay,
  signature_ok, check_message, check_key, verify_message, default_clock_skew_seconds,
}

abbrev pub now_sec : VerifyOptions → ℕ
now_sec opts = opts.now_ms / 1000

abbrev pub skew_of : VerifyOptions → ℕ
skew_of opts = or_else opts.clock_skew_seconds default_clock_skew_seconds

pub VerifyResult-cases :
    (v : VerifyResult)
    → ((key_id : String) × (v ≡ accepted key_id)) ⊎ ((reason : VerifyReason) × (v ≡ refused reason))
VerifyResult-cases (accepted key_id) = inl (key_id, refl)
VerifyResult-cases (refused reason) = inr (reason, refl)

module _ (noble : Noble) (other : String → Number) where
  -- All that is checked of a message before the replay cache is asked.
  pub record IsGenuine (body : Json) (opts : VerifyOptions) (header : Option String)
      (p : ParsedHeader) : Type 0 where
    pub text : String
    pub given : present header ≡ some text
    pub parsed : parse_header other text ≡ some p
    pub public_key : String
    pub trusted : present (opts.resolve_key p.key_id) ≡ some public_key
    pub begun : gt_nat p.created (now_sec opts + skew_of opts) ≡ false
    pub not_over : lt_diff p.expires (now_sec opts) (skew_of opts) ≡ false
    pub signed : signature_ok noble p body public_key ≡ true

  module _ (body : Json) (opts : VerifyOptions) (cache_now_ms : ℕ)
      (cache : Option ReplayCache) where
    to_check_key :
        (header : Option String) (text : String) (p : ParsedHeader)
        → present header ≡ some text
        → parse_header other text ≡ some p
        → verify_message noble other body opts cache_now_ms cache header
          ≡ check_key noble other body opts cache_now_ms cache p
    unfolding verify_message
    to_check_key header text p given parsed = rw (given, verify_message) (rw parsed)

    to_check_message :
        (p : ParsedHeader) (key : String)
        → present (opts.resolve_key p.key_id) ≡ some key
        → check_key noble other body opts cache_now_ms cache p
          ≡ check_message noble other body opts cache_now_ms cache p key
    unfolding check_key
    to_check_message p key trusted = rw (trusted, check_key)

    to_check_replay :
        (header : Option String) (p : ParsedHeader) (g : IsGenuine body opts header p)
        → check_message noble other body opts cache_now_ms cache p g.public_key
          ≡ check_replay cache_now_ms p cache
    unfolding check_message
    to_check_replay header p g = rw (g.begun, g.not_over, g.signed)

    -- A genuine message gets the answer of the replay cache.
    pub verify_message-genuine :
        (header : Option String) (p : ParsedHeader)
        → IsGenuine body opts header p
        → verify_message noble other body opts cache_now_ms cache header
          ≡ check_replay cache_now_ms p cache
    verify_message-genuine header p g =
        to_check_key header g.text p g.given g.parsed
        ∙ to_check_message p g.public_key g.trusted
        ∙ to_check_replay header p g

    unknown :
        (p : ParsedHeader)
        → present (opts.resolve_key p.key_id) ≡ none
        → (check_key noble other body opts cache_now_ms cache p).0 ≡ refused unknown_key
    unfolding check_key
    unknown p bad = rw (bad, check_key)

    accepted_key :
        (p : ParsedHeader) (k : String)
        → (check_replay cache_now_ms p cache).0 ≡ accepted k
        → p.key_id ≡ k
    unfolding check_replay
    accepted_key p k h = ground arith

    check_message-accepted :
        (p : ParsedHeader) (key k : String)
        → (check_message noble other body opts cache_now_ms cache p key).0 ≡ accepted k
        → (gt_nat p.created (now_sec opts + skew_of opts) ≡ false)
          × (lt_diff p.expires (now_sec opts) (skew_of opts) ≡ false)
          × (signature_ok noble p body key ≡ true)
          × ((check_replay cache_now_ms p cache).0 ≡ accepted k)
    unfolding check_message
    check_message-accepted p key k h = ground arith

    -- An accepted message is genuine, its sender is the key of its header, and the replay cache
    -- took it.
    pub verify_message-accepted :
        (header : Option String) (k : String)
        → (verify_message noble other body opts cache_now_ms cache header).0 ≡ accepted k
        → (p : ParsedHeader) × IsGenuine body opts header p
          × (p.key_id ≡ k)
          × ((check_replay cache_now_ms p cache).0 ≡ accepted k)
    unfolding verify_message
    verify_message-accepted header k h = elim (Option-cases (present header)) [
      | inl bad ↦ cc (rw (bad, verify_message) at h)
      | inr (text, given) ↦ elim (Option-cases (parse_header other text)) [
        | inl bad ↦ cc (rw (given, verify_message) at h, bad)
        | inr (p, parsed) ↦ elim (Option-cases (present (opts.resolve_key p.key_id))) [
          | inl bad ↦ cc (rw (to_check_key header text p given parsed) at h, unknown p bad)
          | inr (key, trusted) ↦
              let e =
                rw (to_check_key header text p given parsed, to_check_message p key trusted) at h in
              let (begun, not_over, signed, fresh) = check_message-accepted p key k e in
              (
                p,
                record {
                  text = text;
                  given = given;
                  parsed = parsed;
                  public_key = key;
                  trusted = trusted;
                  begun = begun;
                  not_over = not_over;
                  signed = signed;
                },
                accepted_key p k fresh,
                fresh,
              )
        ]
      ]
    ]
