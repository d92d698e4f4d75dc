-- ===== src/Auth/Participant.antt =====
-- `createParticipantAuth`: one participant signs its own messages, and verifies those of others
-- against its registry with its replay cache.
pub mod NoReplay
pub mod SkewWindow
pub mod Delivered
use beckn_data_commons.Base.{ℕ, String, Option, none, some, List, [], ◌∷◌, or_else}
use beckn_data_commons.Js.{Number}
use beckn_data_commons.Js.Map.{map_get}
use beckn_data_commons.Json.{Json}
use beckn_data_commons.Ed25519.{Noble}
use beckn_data_commons.Auth.ReplayCache.{ReplayCache}
use beckn_data_commons.Auth.Message.{
  VerifyResult, VerifyOptions, SignOptions, sign_message, verify_message,
}

-- the registry is a `Map`: each key once
pub record Participant : Type 0 where
  pub key_id : String
  pub private_key_hex : String
  pub registry : List (String × String)
  pub ttl_seconds : Option ℕ
  pub clock_skew_seconds : Option ℕ

-- A message at the door: its body, its header, and the clock when `verify` reads it, once for the
-- validity window and once for the cache.
pub record Delivery : Type 0 where
  pub body : Json
  pub header : Option String
  pub now_ms : ℕ
  pub cache_now_ms : ℕ

abbrev pub options_of : Participant → ℕ → VerifyOptions
options_of me now_ms = record {
  resolve_key = λ k. map_get k me.registry;
  now_ms = now_ms;
  clock_skew_seconds = me.clock_skew_seconds;
}

module _ (noble : Noble) (me : Participant) where
  unfoldable pub participant_sign : ℕ → String → Json → Option String
  participant_sign now_ms nonce body = sign_message noble body (record {
    key_id = me.key_id;
    private_key_hex = me.private_key_hex;
    now_ms = now_ms;
    ttl_seconds = me.ttl_seconds;
    nonce = nonce;
  })

module _ (noble : Noble) (other : String → Number) (me : Participant) where
  unfoldable pub participant_verify : Delivery → ReplayCache → VerifyResult × ReplayCache
  participant_verify d cache =
      let (result, cache') =
        verify_message noble other d.body (options_of me d.now_ms) d.cache_now_ms (some cache)
          d.header in
      (result, or_else cache' cache)

  -- the cache after a series of deliveries
  unfoldable pub after : List Delivery → ReplayCache → ReplayCache
  after [] cache = cache
  after (d ∷ ds) cache = after ds (participant_verify d cache).1
