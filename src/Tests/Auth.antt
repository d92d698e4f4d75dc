-- ===== src/Tests/Auth.antt =====
-- Messages between two participants at concrete inputs.
use beckn_data_commons.Base.{String, true, false, ◌≡◌, ◌≢◌, refl, ap, none, some, [], ◌∷◌, arith}
use beckn_data_commons.Js.{nat, lt_diff, thousand_lt}
use beckn_data_commons.Js.Text.{all_chars}
use beckn_data_commons.Js.Map.{map_get}
use beckn_data_commons.Json.{Json, num, str, obj, field, end, wire}
use beckn_data_commons.Auth.ReplayCache.{ReplayCache, empty, has_key, seen}
use beckn_data_commons.Auth.ReplayCache.Laws.{seen_of_absent}
use beckn_data_commons.Auth.Header.{ParsedHeader, present}
use beckn_data_commons.Auth.Header.RoundTrip.{IsFieldText}
use beckn_data_commons.Auth.Message.{
  VerifyResult, accepted, SignOptions, sign_message, verify_message, check_replay,
}
use beckn_data_commons.Auth.Message.Accepted.{
  IsGenuine, verify_message-genuine, verify_message-accepted, skew_of,
}
use beckn_data_commons.Auth.Message.Honest.{sign_message-IsGenuine, header_of}
use beckn_data_commons.Auth.Participant.{
  Participant, Delivery, options_of, participant_sign, participant_verify, after,
}
use beckn_data_commons.Auth.Participant.NoReplay.{
  parsed, participant_verify_of_new, accepted_once, check_replay_of_new,
}
use beckn_data_commons.Auth.Participant.SkewWindow.{accepted_again_in_skew_window}
use beckn_data_commons.Auth.Participant.Delivered.{participant_verify-participant_sign}
use beckn_data_commons.Tests.Noble.{toy, toy-IsNoble}
use beckn_data_commons.Tests.Data.{am_key, am_key-derived, other_numbers}

abbrev pub bap : Participant
bap = record {
  key_id = "bap";
  private_key_hex = am_key;
  registry = [];
  ttl_seconds = none;
  clock_skew_seconds = none;
}

abbrev pub am : Participant
am = record bap { key_id = "am"; registry = ("bap", am_key) ∷ [] }

abbrev pub order : Json
order = obj (field "purpose" (str "study") (field "ttlSeconds" (num (nat 60)) end))

pub bap-known : present (map_get "bap" am.registry) ≡ some am_key
unfolding map_get
bap-known = refl

pub bap-IsFieldText : IsFieldText "bap"
unfolding all_chars
bap-IsFieldText = (refl, refl)

pub nonce-IsFieldText : IsFieldText "n1"
unfolding all_chars
nonce-IsFieldText = (refl, refl)

not_seen : has_key "bap:n1" empty.seen_until ≡ false
unfolding has_key
not_seen = refl

participant_verify-participant_sign_example :
    (header : String) × (participant_sign toy bap 90000 "n1" order ≡ some header)
    × ((participant_verify toy other_numbers am
          (record { body = wire order; header = some header; now_ms = 92500; cache_now_ms = 92501 })
          empty).0
        ≡ accepted "bap")
participant_verify-participant_sign_example =
    participant_verify-participant_sign toy other_numbers bap am am_key "n1" 90000 92500 92501 order
      empty toy-IsNoble am_key-derived bap-known bap-IsFieldText nonce-IsFieldText (omega arith)
      (omega arith) not_seen

-- a message of `bap`, as `am` gets it
abbrev pub sign_options : SignOptions
sign_options = record {
  key_id = "bap";
  private_key_hex = am_key;
  now_ms = 90000;
  ttl_seconds = none;
  nonce = "n1";
}

abbrev pub sent :
    (signature header : String) × (sign_message toy order sign_options ≡ some header)
    × IsGenuine toy other_numbers
        (wire order)
        (options_of am 92500)
        (some header)
        (header_of sign_options signature)
sent =
    sign_message-IsGenuine toy toy-IsNoble other_numbers order sign_options am_key am_key-derived
      bap-IsFieldText nonce-IsFieldText (options_of am 92500) bap-known (omega arith) (omega arith)

abbrev pub delivery : Delivery
delivery = record { body = wire order; header = some sent.1; now_ms = 92500; cache_now_ms = 92501 }

abbrev pub header : ParsedHeader
header = header_of sign_options sent.0

pub header-parsed : parsed toy other_numbers am delivery ≡ some header
header-parsed = rw (sent.3.given) (sent.3.parsed)

new : (seen 92501 "bap:n1" header.expires empty).1 ≡ false
new = seen_of_absent "bap:n1" header.expires 92501 empty not_seen

pub delivery-accepted : (participant_verify toy other_numbers am delivery empty).0 ≡ accepted "bap"
delivery-accepted =
    ap (λ (r : VerifyResult × ReplayCache). r.0)
      (participant_verify_of_new toy other_numbers am delivery empty header sent.3 new)

pub before_expiry : thousand_lt header.expires 92501 ≡ false
unfolding thousand_lt
before_expiry = refl

accepted_once_example :
    (participant_verify toy other_numbers am delivery (
      after toy other_numbers am
        (delivery ∷ [])
        (participant_verify toy other_numbers am delivery empty).1)).0
    ≢ accepted "bap"
accepted_once_example =
    accepted_once toy other_numbers am delivery delivery (delivery ∷ []) empty "bap" "bap" header
      header header-parsed header-parsed refl (before_expiry, tt) before_expiry delivery-accepted

after_expiry : thousand_lt header.expires 123000 ≡ true
unfolding thousand_lt
after_expiry = refl

within_skew : lt_diff header.expires 123 (skew_of (options_of am 123000)) ≡ false
unfolding lt_diff
within_skew = refl

accepted_again_in_skew_window_example :
    (participant_verify toy other_numbers am
      (record delivery { now_ms = 123000; cache_now_ms = 123000 })
      (participant_verify toy other_numbers am delivery empty).1).0
    ≡ accepted "bap"
accepted_again_in_skew_window_example =
    accepted_again_in_skew_window toy other_numbers am delivery 123000 empty "bap" header
      header-parsed delivery-accepted (omega arith) after_expiry within_skew

message-accepted :
    (verify_message toy other_numbers
      (wire order)
      (options_of am 92500)
      92501
      (some empty)
      (some sent.1)).0
    ≡ accepted "bap"
message-accepted =
    rw
      (
        verify_message-genuine toy other_numbers (wire order) (options_of am 92500) 92501
            (some empty) (some sent.1) header sent.3,
        check_replay_of_new 92501 header empty new,
      )
      refl

verify_message-accepted_example :
    (p : ParsedHeader) × IsGenuine toy other_numbers
      (wire order)
      (options_of am 92500)
      (some sent.1)
      p
    × (p.key_id ≡ "bap")
    × ((check_replay 92501 p (some empty)).0 ≡ accepted "bap")
verify_message-accepted_example =
    verify_message-accepted toy other_numbers (wire order) (options_of am 92500) 92501 (some empty)
      (some sent.1) "bap" message-accepted
