-- ===== src/Bap/App/Delivered.antt =====
-- services/bpp/src/app.ts and services/bap/src/app.ts: a provider's callback on its way to the platform.
use beckn_data_commons.Base.{
  ℕ, ◌+◌, ◌/◌, ◌≤◌, String, false, Option, some, ◌≡◌, refl, ap, or_else, arith,
}
use beckn_data_commons.Js.{Number}
use beckn_data_commons.Js.Map.{map_get}
use beckn_data_commons.Json.{Json, str, obj, field, end, wire}
use beckn_data_commons.Ed25519.{Noble, IsNoble, public_key_for}
use beckn_data_commons.Http.{post}
use beckn_data_commons.Auth.ReplayCache.{ReplayCache, has_key}
use beckn_data_commons.Auth.Header.{present, ◌++◌}
use beckn_data_commons.Auth.Header.RoundTrip.{IsFieldText}
use beckn_data_commons.Auth.Message.{VerifyResult, accepted}
use beckn_data_commons.Auth.Message.Accepted.{verify_message-accepted}
use beckn_data_commons.Auth.Participant.{
  Participant, Delivery, participant_sign, participant_verify, options_of,
}
use beckn_data_commons.Auth.Participant.Delivered.{participant_verify-participant_sign}
use beckn_data_commons.AccessManager.App.{Reply, answered}
use beckn_data_commons.Bap.Transport.{credential_of}
use beckn_data_commons.Bap.Orchestrator.{Registry, deliver_callback}
use beckn_data_commons.Bap.App.{on_callback}
use beckn_data_commons.Bpp.App.{Dispatch, response_json, callback_request}

credential_of-signed :
    (sign : Json → Option String) (body : Json) (header text : String)
    → sign body ≡ some header
    → present (some header) ≡ some text
    → credential_of (some sign) body ≡ some (some header)
unfolding credential_of
credential_of-signed sign body header text signed given =
    rw (signed, credential_of) (ground (given, arith))

on_callback-accepted :
    {A : Type 0} (verify_callback : Delivery → A → VerifyResult × A) (d : Delivery) (a : A)
    (s : Registry) (k : String)
    → (verify_callback d a).0 ≡ accepted k
    → on_callback (some verify_callback) d a s ≡ (
      answered 200 (obj (field "message" (obj (field "status" (str "ACK") end)) end)),
      (verify_callback d a).1,
      deliver_callback d.body s,
    )
unfolding on_callback
on_callback-accepted verify_callback d a s k good = rw (good, on_callback) refl

-- A callback that a provider signs as a participant is posted to the address of its dispatch, and the
-- platform acknowledges it and delivers what was posted to its collectors, when the platform trusts the
-- provider's key, the provider's name and the nonce are field texts, the platform's clock is in the
-- window or in its tolerance, and its cache has no message of the provider's with this nonce.
pub on_callback-callback_request :
    (noble : Noble) (other : String → Number) (provider platform : Participant)
    (public_key nonce : String) (sent_ms now_ms cache_now_ms : ℕ) (dispatch : Dispatch)
    (cache : ReplayCache) (s : Registry)
    → IsNoble noble
    → public_key_for noble provider.private_key_hex ≡ some public_key
    → present (map_get provider.key_id platform.registry) ≡ some public_key
    → IsFieldText provider.key_id
    → IsFieldText nonce
    → sent_ms / 1000 ≤ now_ms / 1000 + or_else platform.clock_skew_seconds 5
    → now_ms / 1000
      ≤ sent_ms / 1000 + or_else provider.ttl_seconds 30 + or_else platform.clock_skew_seconds 5
    → has_key (provider.key_id ++ ":" ++ nonce) cache.seen_until ≡ false
    → (header : String) × (callback_request
          (some (participant_sign noble provider sent_ms nonce))
          dispatch
        ≡ some (post (some header) dispatch.url (response_json dispatch.payload)))
      × (let r =
            on_callback
              (some (participant_verify noble other platform))
              (record {
                body = wire (response_json dispatch.payload);
                header = some header;
                now_ms = now_ms;
                cache_now_ms = cache_now_ms;
              })
              cache
              s in
          (r.0 ≡ answered 200 (obj (field "message" (obj (field "status" (str "ACK") end)) end)))
          × (r.2 ≡ deliver_callback (wire (response_json dispatch.payload)) s))
unfolding callback_request participant_verify
on_callback-callback_request noble other provider platform public_key nonce sent_ms now_ms
      cache_now_ms dispatch cache s laws derived trusted named fresh begun not_over absent =
    let body = response_json dispatch.payload in
    let (header, signed, good) =
      participant_verify-participant_sign noble other provider platform public_key nonce sent_ms
        now_ms cache_now_ms body cache laws derived trusted named fresh begun not_over absent in
    let (p, genuine, _, _) =
      verify_message-accepted noble other (wire body) (options_of platform now_ms) cache_now_ms
        (some cache) (some header) provider.key_id good in
    let posted =
      credential_of-signed (participant_sign noble provider sent_ms nonce) body header genuine.text
        signed genuine.given in
    let answer =
      on_callback-accepted (participant_verify noble other platform)
        (record {
          body = wire body;
          header = some header;
          now_ms = now_ms;
          cache_now_ms = cache_now_ms;
        })
        cache s provider.key_id good in
    (
      header,
      rw posted refl,
      (
        ap (λ (r : Reply × ReplayCache × Registry). r.0) answer,
        ap (λ (r : Reply × ReplayCache × Registry). r.2) answer,
      ),
    )
