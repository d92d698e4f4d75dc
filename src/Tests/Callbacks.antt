-- ===== src/Tests/Callbacks.antt =====
-- A provider's callback at the platform, at concrete inputs.
use beckn_data_commons.Base.{String, List, false, ◌≡◌, refl, some, [], ◌∷◌, arith}
use beckn_data_commons.Js.Text.{all_chars}
use beckn_data_commons.Js.Map.{map_get}
use beckn_data_commons.Json.{str, obj, field, end, wire, get_field}
use beckn_data_commons.Http.{post}
use beckn_data_commons.Auth.ReplayCache.{empty, has_key}
use beckn_data_commons.Auth.Header.{present}
use beckn_data_commons.Auth.Header.RoundTrip.{IsFieldText}
use beckn_data_commons.Auth.Participant.{Participant, participant_sign, participant_verify}
use beckn_data_commons.Beckn.{BecknContext}
use beckn_data_commons.Bpp.Builders.{build_on_select, build_on_init, build_on_confirm}
use beckn_data_commons.Bpp.App.{Dispatch, response_json, callback_request}
use beckn_data_commons.AccessManager.App.{answered}
use beckn_data_commons.Bap.Orchestrator
use beckn_data_commons.Bap.Orchestrator.{Event, deliver_callback, steps, fanning, window_end}
use beckn_data_commons.Bap.App.{on_callback}
use beckn_data_commons.Bap.App.Delivered.{on_callback-callback_request}
use beckn_data_commons.Bap.App.Settles.{IsAnsweredBy, round-settles}
use beckn_data_commons.Tests.Noble.{toy, toy-IsNoble}
use beckn_data_commons.Tests.Data.{am_key, am_key-derived, other_numbers}
use beckn_data_commons.Tests.Auth.{bap, nonce-IsFieldText}
use beckn_data_commons.Tests.Routes.{catalog, bpp_deps}

abbrev provider : Participant
provider = record bap { key_id = "bpp" }

abbrev platform : Participant
platform = record bap { registry = ("bpp", am_key) ∷ [] }

abbrev ctx : BecknContext
ctx = record {
  bap_id = "bap";
  bap_uri = "http://bap/";
  transaction_id = "t-1";
  message_id = "m-1";
  other = field "action" (str "select") (field "transactionId" (str "t-1") end);
}

abbrev selected : Dispatch
selected = record {
  url = "http://bap/on_select";
  payload = build_on_select ctx catalog (obj end) bpp_deps;
}

provider-known : present (map_get "bpp" platform.registry) ≡ some am_key
unfolding map_get
provider-known = refl

provider-IsFieldText : IsFieldText "bpp"
unfolding all_chars
provider-IsFieldText = (refl, refl)

not_seen : has_key "bpp:n1" empty.seen_until ≡ false
unfolding has_key
not_seen = refl

on_callback-callback_request_example :
    (header : String) × (callback_request (some (participant_sign toy provider 90000 "n1")) selected
      ≡ some (post (some header) "http://bap/on_select" (response_json selected.payload)))
    × (let r =
          on_callback
            (some (participant_verify toy other_numbers platform))
            (record {
              body = wire (response_json selected.payload);
              header = some header;
              now_ms = 92500;
              cache_now_ms = 92501;
            })
            empty
            (steps (fanning "select" "t-1" 1 ∷ []) Orchestrator.empty) in
        (r.0 ≡ answered 200 (obj (field "message" (obj (field "status" (str "ACK") end)) end)))
        × (r.2
            ≡ deliver_callback
                (wire (response_json selected.payload))
                (steps (fanning "select" "t-1" 1 ∷ []) Orchestrator.empty)))
on_callback-callback_request_example =
    on_callback-callback_request toy other_numbers provider platform am_key "n1" 90000 92500 92501
      selected empty (steps (fanning "select" "t-1" 1 ∷ []) Orchestrator.empty) toy-IsNoble
      am_key-derived provider-known provider-IsFieldText nonce-IsFieldText (omega arith)
      (omega arith) not_seen

abbrev earlier : List Event
earlier = fanning "select" "t-1" 1 ∷ []

abbrev later : List Event
later = window_end 0 ∷ window_end 1 ∷ fanning "select" "t-1" 1 ∷ []

transaction-given : get_field "transactionId" ctx.other ≡ str "t-1"
unfolding get_field
transaction-given = refl

round-settles_example :
    IsAnsweredBy ctx "t-1" bpp_deps earlier later "select"
      (build_on_select ctx catalog (obj end) bpp_deps)
    × IsAnsweredBy ctx "t-1" bpp_deps earlier later "init"
        (build_on_init ctx catalog (obj end) bpp_deps)
    × IsAnsweredBy ctx "t-1" bpp_deps earlier later "confirm"
        (build_on_confirm ctx catalog (obj end) bpp_deps)
round-settles_example =
    round-settles ctx "t-1" bpp_deps earlier later catalog (obj end) transaction-given refl
