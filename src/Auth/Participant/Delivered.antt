-- ===== src/Auth/Participant/Delivered.antt =====
-- What one participant signs another accepts.
use beckn_data_commons.Base.{ℕ, ◌+◌, ◌/◌, ◌≤◌, String, false, some, ◌≡◌, ap, or_else}
use beckn_data_commons.Js.{Number}
use beckn_data_commons.Js.Map.{map_get}
use beckn_data_commons.Json.{Json, wire}
use beckn_data_commons.Ed25519.{Noble, IsNoble, public_key_for}
use beckn_data_commons.Auth.ReplayCache.{ReplayCache, has_key}
use beckn_data_commons.Auth.ReplayCache.Laws.{seen_of_absent}
use beckn_data_commons.Auth.Header.{present, ◌++◌}
use beckn_data_commons.Auth.Header.RoundTrip.{IsFieldText}
use beckn_data_commons.Auth.Message.{VerifyResult, accepted, SignOptions}
use beckn_data_commons.Auth.Message.Honest.{sign_message-IsGenuine, header_of}
use beckn_data_commons.Auth.Participant.{
  Participant, Delivery, participant_sign, participant_verify, options_of,
}
use beckn_data_commons.Auth.Participant.NoReplay.{participant_verify_of_new}

-- What `me` signs at `sent_ms`, `you` accept as mine: my public key is in your registry, my name and
-- the nonce hold no quote and are not empty, your clock is in the window of the message or in your
-- tolerance around it, and your cache has no message of mine with this nonce.
pub participant_verify-participant_sign :
    (noble : Noble) (other : String → Number) (me you : Participant) (public_key nonce : String)
    (sent_ms now_ms cache_now_ms : ℕ) (body : Json) (cache : ReplayCache)
    → IsNoble noble
    → public_key_for noble me.private_key_hex ≡ some public_key
    → present (map_get me.key_id you.registry) ≡ some public_key
    → IsFieldText me.key_id
    → IsFieldText nonce
    → sent_ms / 1000 ≤ now_ms / 1000 + or_else you.clock_skew_seconds 5
    → now_ms / 1000 ≤ sent_ms / 1000 + or_else me.ttl_seconds 30 + or_else you.clock_skew_seconds 5
    → has_key (me.key_id ++ ":" ++ nonce) cache.seen_until ≡ false
    → (header : String) × (participant_sign noble me sent_ms nonce body ≡ some header)
      × ((participant_verify noble other you
            (record {
              body = wire body;
              header = some header;
              now_ms = now_ms;
              cache_now_ms = cache_now_ms;
            })
            cache).0
          ≡ accepted me.key_id)
unfolding participant_sign
participant_verify-participant_sign noble other me you public_key nonce sent_ms now_ms cache_now_ms
      body cache laws derived trusted named fresh begun not_over absent =
    let opts : SignOptions = record {
      key_id = me.key_id;
      private_key_hex = me.private_key_hex;
      now_ms = sent_ms;
      ttl_seconds = me.ttl_seconds;
      nonce = nonce;
    } in
    let (signature, header, sent, genuine) =
      sign_message-IsGenuine noble laws other body opts public_key derived named fresh
        (options_of you now_ms) trusted begun not_over in
    let d : Delivery = record {
      body = wire body;
      header = some header;
      now_ms = now_ms;
      cache_now_ms = cache_now_ms;
    } in
    (
      header,
      sent,
      ap (λ (r : VerifyResult × ReplayCache). r.0)
          (participant_verify_of_new noble other you d cache (header_of opts signature) genuine
            (seen_of_absent _ _ cache_now_ms cache absent)),
    )
