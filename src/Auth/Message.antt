-- ===== src/Auth/Message.antt =====
-- Signing a message and verifying one, and the participant that does both.
pub mod Accepted
pub mod Honest
use Prim.Native.String
use beckn_data_commons.Base.{
  ℕ, ◌+◌, ◌/◌, String, Bool, true, false, Option, none, some, List, [], ◌∷◌, ◌==◌, or_else, ◌>>=◌,
  if◌then◌else◌,
}
use beckn_data_commons.Js.{Number, gt_nat, lt_diff, number_text, decimal}
use beckn_data_commons.Json.{Json, wire}
use beckn_data_commons.Canonical.{canonical_json}
use beckn_data_commons.Ed25519.{Noble, sign, verify}
use beckn_data_commons.Auth.ReplayCache.{ReplayCache, seen}
use beckn_data_commons.Auth.Header.{ParsedHeader, print_header, parse_header, present, ◌++◌}

pub data VerifyReason : Type 0 where
  missing malformed unknown_key not_yet_valid expired replayed bad_signature : VerifyReason

-- `accepted` carries the sender's `keyId`
pub data VerifyResult : Type 0 where
  accepted : String → VerifyResult
  refused : VerifyReason → VerifyResult

pub record SignOptions : Type 0 where
  pub key_id : String
  pub private_key_hex : String
  pub now_ms : ℕ
  pub ttl_seconds : Option ℕ
  -- given, or drawn at random
  pub nonce : String

pub record VerifyOptions : Type 0 where
  pub resolve_key : String → Option String
  pub now_ms : ℕ
  pub clock_skew_seconds : Option ℕ

abbrev default_ttl_seconds : ℕ
default_ttl_seconds = 30

abbrev pub default_clock_skew_seconds : ℕ
default_clock_skew_seconds = 5

-- `body ?? null`, through `JSON.stringify` and back; `wire` is `null` at both
unfoldable pub signing_base : String → String → String → String → Json → Option String
signing_base key_id created expires nonce body = do
  text ← canonical_json (wire body)
  some (key_id ++ "\n" ++ created ++ "\n" ++ expires ++ "\n" ++ nonce ++ "\n" ++ text)

-- the base of a parsed header
abbrev pub base_of : ParsedHeader → Json → Option String
base_of p body = signing_base p.key_id (number_text p.created) (number_text p.expires) p.nonce body

-- the key of a message in the cache
abbrev pub replay_key : ParsedHeader → String
replay_key p = p.key_id ++ ":" ++ p.nonce

unfoldable pub check_replay :
    ℕ → ParsedHeader → Option ReplayCache → VerifyResult × Option ReplayCache
check_replay cache_now_ms p none = (accepted p.key_id, none)
check_replay cache_now_ms p (some cache) =
    let (cache', was_seen) = seen cache_now_ms (replay_key p) p.expires cache in
    if was_seen then (refused replayed, some cache') else (accepted p.key_id, some cache')

module _ (noble : Noble) where
  unfoldable pub sign_message : Json → SignOptions → Option String
  sign_message body opts = do
    let now_sec = opts.now_ms / 1000
    let created = decimal now_sec
    let expires = decimal (now_sec + or_else opts.ttl_seconds default_ttl_seconds)
    base ← signing_base opts.key_id created expires opts.nonce body
    signature ← sign noble base opts.private_key_hex
    some (print_header opts.key_id created expires opts.nonce signature)

  -- the signature over the body that was received
  unfoldable pub signature_ok : ParsedHeader → Json → String → Bool
  signature_ok p body public_key = elim (base_of p body) [
    | none ↦ false
    | some base ↦ verify noble p.signature base public_key
  ]

module _ (noble : Noble) (other : String → Number) where
  module _ (body : Json) (opts : VerifyOptions) (cache_now_ms : ℕ)
      (cache : Option ReplayCache) where
    unfoldable pub check_message : ParsedHeader → String → VerifyResult × Option ReplayCache
    check_message p public_key =
        let now_sec = opts.now_ms / 1000 in
        let skew = or_else opts.clock_skew_seconds default_clock_skew_seconds in
        if gt_nat p.created (now_sec + skew)
        then (refused not_yet_valid, cache)
        else if lt_diff p.expires now_sec skew
        then (refused expired, cache)
        else if signature_ok noble p body public_key
        then check_replay cache_now_ms p cache
        else (refused bad_signature, cache)

    unfoldable pub check_key : ParsedHeader → VerifyResult × Option ReplayCache
    check_key p = elim (present (opts.resolve_key p.key_id)) [
      | none ↦ (refused unknown_key, cache)
      | some public_key ↦ check_message p public_key
    ]

    unfoldable pub verify_message : Option String → VerifyResult × Option ReplayCache
    verify_message header = elim (present header) [
      | none ↦ (refused missing, cache)
      | some text ↦ elim (parse_header other text) [
        | none ↦ (refused malformed, cache)
        | some p ↦ check_key p
      ]
    ]
