-- ===== src/Tests/Confirmation.antt =====
-- A confirmation from the platform to a download, at a concrete input.
use beckn_data_commons.Base.{◌≡◌, ◌⊎◌, ◌==◌, refl, Option, none, some, [], ◌∷◌, or_else, find}
use beckn_data_commons.Json.Texts.{string_of}
use beckn_data_commons.Json.{Json, null, str, obj, field, end, get, get_field, nullish, wire}
use beckn_data_commons.Grant.Types.{SignedAccessGrant, signed_json}
use beckn_data_commons.Http.{Request, Response}
use beckn_data_commons.AccessManager.Service.{claims_for, record_of}
use beckn_data_commons.AccessManager.Stores.Memory
use beckn_data_commons.AccessManager.Stores.Memory.{memory_store}
use beckn_data_commons.AccessManager.App.{Reply, answered, thrown, create_grant}
use beckn_data_commons.Bpp.Stores.{memory_revocations, memory_redemptions, memory_record_redemption}
use beckn_data_commons.Bap.Orchestrator.{CallbackResponse, Registry, fan_out}
use beckn_data_commons.Bap.Orchestrator
use beckn_data_commons.Bap.Orchestrator.Journey.{
  BapConfig, BppEndpoint, ConfirmParams, single_result, confirm_request, request_json,
}
use beckn_data_commons.Bap.Transport.{credential_of}
use beckn_data_commons.Bap.Client.{Confirmation, replied, waiting, confirm_route, confirm_reply}
use beckn_data_commons.Bap.Client.Confirmed.{Carries}
use beckn_data_commons.Bap.Client.Started.{IsComplete, Lacks, confirm_route-started}
use beckn_data_commons.Bpp.Download.Presented.{parse_presented_grant}
use beckn_data_commons.Bpp.App.{DownloadConfig, DownloadQuery, sent, fields_of_query, get_download}
use beckn_data_commons.Mcp.Gateway.{encode_grant_header}
use beckn_data_commons.Consent.Presented.{parse_presented_grant-encode_grant_header}
use beckn_data_commons.Consent.Downloaded.{confirm_reply-get_download}
use beckn_data_commons.Tests.Noble.{toy, toy-IsNoble}
use beckn_data_commons.Tests.Data.{plain_zod, other_numbers, am_key, am_key-derived}
use beckn_data_commons.Tests.Manager.{
  request, request-RequestIsValid, manager, ids-IdsAreValid, claims-Authorizes,
}
use beckn_data_commons.Tests.Provider.{census, held, am_key-ne-empty, not_revoked, first_count}
use beckn_data_commons.Tests.Revocation.{response_of}

abbrev target : BppEndpoint
target = record { bpp_id = "bpp"; uri = "http://bpp" }

abbrev confirmation : ConfirmParams
confirmation = record {
  transaction_id = "t-1";
  bpp_id = "bpp";
  bpp_uri = none;
  offer_id = "offer-1";
  resource_id = "census";
  grantee = request.grantee;
  purpose = "study";
  license = request.license;
  scope = some request.scope;
}

confirmation-request : confirm_request confirmation target ≡ request
unfolding confirm_request
confirmation-request = refl

Carries-response_of : (r : Reply) → Carries r (response_of r)
Carries-response_of (answered code body) = (refl, refl)
Carries-response_of thrown = refl

-- a network that hands every body to the route of the Access Manager
abbrev manager_route : Request → Memory.Grants → Reply × Memory.Grants
manager_route req s =
    create_grant memory_store toy plain_zod manager (or_else req.body null) 1000 "g-1" "n-1" s

abbrev fetch : Request → Memory.Grants → Option Response × Memory.Grants
fetch req s = (some (response_of (manager_route req s).0), (manager_route req s).1)

abbrev callback : CallbackResponse
callback = record { bpp_id = str "bpp"; message = obj end }

callback-contract : single_result (callback ∷ []) ≡ some (obj end)
unfolding single_result get get_field
callback-contract = refl

unsigned : credential_of none (request_json (confirm_request confirmation target)) ≡ some none
unfolding credential_of
unsigned = refl

abbrev created : Reply × Memory.Grants
created =
    create_grant memory_store toy plain_zod manager
      (wire (request_json (confirm_request confirmation target))) 1000 "g-1" "n-1" Memory.empty

abbrev download_config : DownloadConfig
download_config = record {
  bpp_id = "bpp";
  access_manager_public_key = am_key;
  clock_skew_seconds = 30;
  resolve_file = λ resource offer kind. some census;
}

abbrev query : DownloadQuery
query = record { resource_id = some "census"; offer_id = some "offer-1"; fields = some "age" }

confirm_reply-get_download_example :
    (g : SignedAccessGrant) × (confirm_reply fetch "http://am" none "late" "failed" confirmation
        target
        (callback ∷ [])
        Memory.empty
      ≡ (
        answered 200 (obj (field "contract" (obj end) (field "grant" (signed_json g) end))),
        Memory.save (record_of (claims_for manager request 1000 "g-1" "n-1") g) Memory.empty,
      ))
    × ((get_download memory_revocations memory_redemptions toy plain_zod download_config
          other_numbers
          (some (encode_grant_header (signed_json g)))
          query
          1200000
          []
          []).0
        ≡ sent census "g-1" (memory_record_redemption "g-1" []).0)
unfolding confirm_request fields_of_query
confirm_reply-get_download_example =
    confirm_reply-get_download toy plain_zod memory_store memory_revocations memory_redemptions
      manager 1000 "g-1" "n-1" fetch "http://am" none none confirmation target Memory.empty
      download_config other_numbers query "census" 1200000 "late" "failed" (callback ∷ []) (obj end)
      (response_of created.0) [] [] census toy-IsNoble am_key-derived am_key-ne-empty
      request-RequestIsValid ids-IdsAreValid callback-contract unsigned
      (refl, Carries-response_of created.0, refl) refl refl claims-Authorizes not_revoked refl
      first_count

parse_presented_grant-encode_grant_header_example :
    parse_presented_grant other_numbers (some (encode_grant_header (signed_json held)))
    ≡ signed_json held
parse_presented_grant-encode_grant_header_example =
    parse_presented_grant-encode_grant_header other_numbers held

abbrev platform : BapConfig
platform = record {
  network_id = "net";
  bap_id = "bap";
  bap_uri = "http://bap";
  message_ttl = "PT30S";
  bpps = target ∷ [];
}

abbrev body : Json
body = obj (
    field "transactionId" (str "t-1") (
      field "bppId" (str "bpp") (
        field "offerId" (str "offer-1") (
          field "resourceId" (str "census") (
            field "purpose" (str "study") (
              field "licenseClass" (str "research-only")
                (field "grantee" (obj (field "id" (str "lab") end)) end)))))))

confirm_route-started_example :
    (let b = nullish body (obj end) in
      ((error : Json) × (confirm_route platform body Orchestrator.empty
          ≡ replied (answered 400 error))
        × (Lacks b ⊎ (find (λ p. p.bpp_id == string_of (get "bppId" b)) platform.bpps ≡ none)))
      ⊎ ((c : Confirmation) × (found : BppEndpoint) × IsComplete b c
          × (find (λ p. p.bpp_id == string_of (get "bppId" b)) platform.bpps ≡ some found)
          × (confirm_route platform body Orchestrator.empty
              ≡ waiting c found
                  (fan_out "confirm" (string_of (get "transactionId" b)) 1 Orchestrator.empty))))
confirm_route-started_example = confirm_route-started platform body Orchestrator.empty
