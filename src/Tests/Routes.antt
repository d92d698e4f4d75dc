-- ===== src/Tests/Routes.antt =====
-- The catalog and the routes of a provider at concrete inputs.
use beckn_data_commons.Base.{String, ◌≡◌, refl, ◌⊎◌, none, some, [], ◌∷◌}
use beckn_data_commons.Json.{Json, Fields, str, obj, field, end, get, nullish}
use beckn_data_commons.Auth.ReplayCache.{empty}
use beckn_data_commons.Auth.Message.{VerifyReason, accepted, refused}
use beckn_data_commons.Auth.Participant.{participant_verify}
use beckn_data_commons.Beckn.{BecknContext, beckn_context}
use beckn_data_commons.Bpp.Catalog.{Offer, Catalog, SearchIntent, no_intent, search}
use beckn_data_commons.Bpp.Intent.{extract_intent}
use beckn_data_commons.Bpp.Intent.Discarded.{extract_intent-unknown_kind}
use beckn_data_commons.Bpp.Builders.{BuildDeps, Response, build_on_select}
use beckn_data_commons.Bpp.App.{beckn_route}
use beckn_data_commons.Bpp.App.Dispatched.{IsAnswered, beckn_route-dispatched}
use beckn_data_commons.Tests.Noble.{toy}
use beckn_data_commons.Tests.Data.{plain_zod, other_numbers}
use beckn_data_commons.Tests.Auth.{am, delivery}

abbrev census_offer : Offer
census_offer = record {
  id = "offer-1";
  name = "Census";
  resource_ids = "census" ∷ [];
  offer_attributes = obj (field "bdc:modality" (str "tabular") end);
  considerations = [];
  other = end;
}

abbrev pub catalog : Catalog
catalog = record {
  bpp_id = some "bpp";
  resources = record { id = "census"; other = end } ∷ record { id = "photos"; other = end } ∷ [];
  offers = census_offer ∷ [];
  other = end;
}

abbrev tabular : SearchIntent
tabular = record no_intent { modality = some "tabular" }

abbrev same_case : String → String
same_case s = s

-- an intent for audio, of a kind that is misspelt
abbrev misspelt : Fields
misspelt = field "kind" (str "datasets") (field "modality" (str "audio") end)

extract_intent-unknown_kind_example :
    (search same_case (extract_intent (obj (field "intent" (obj misspelt) end))) catalog).offers
    ≡ census_offer ∷ []
unfolding get
extract_intent-unknown_kind_example =
    extract_intent-unknown_kind same_case (field "intent" (obj misspelt) end) misspelt "datasets"
      catalog refl refl refl

abbrev pub bpp_deps : BuildDeps
bpp_deps = record { bpp_id = "bpp"; bpp_uri = "http://bpp"; now_iso = "2026-01-01T00:00:00Z" }

abbrev selecting : BecknContext → Json → BuildDeps → Response
selecting ctx message deps = build_on_select ctx catalog message deps

beckn_route-dispatched_example :
    (let body = nullish delivery.body (obj end) in
      let r =
        beckn_route plain_zod selecting bpp_deps
          (some (participant_verify toy other_numbers am))
          delivery
          empty in
      ((r.1 ≡ none)
        × (((reason : VerifyReason) × ((participant_verify toy other_numbers am
                  (record delivery { body = body })
                  empty).0
                ≡ refused reason))
            ⊎ (beckn_context plain_zod (get "context" body) ≡ none)))
      ⊎ ((key_id : String) × ((participant_verify toy other_numbers am
              (record delivery { body = body })
              empty).0
            ≡ accepted key_id)
          × IsAnswered plain_zod selecting bpp_deps body r.0 r.1))
beckn_route-dispatched_example =
    beckn_route-dispatched plain_zod selecting bpp_deps (participant_verify toy other_numbers am)
      delivery empty
