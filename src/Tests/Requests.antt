-- ===== src/Tests/Requests.antt =====
-- Requests to the Access Manager at concrete inputs.
use beckn_data_commons.Base.{String, false, ◌≡◌, ◌⊎◌, refl, some, []}
use beckn_data_commons.Json.{Json, str, obj, field, end}
use beckn_data_commons.Grant.Types.{grantee_json, provider_json, resource_json, scope_json}
use beckn_data_commons.Auth.ReplayCache.{empty}
use beckn_data_commons.Auth.Message.{accepted}
use beckn_data_commons.Auth.Participant.{participant_verify, after}
use beckn_data_commons.AccessManager.Stores.Memory
use beckn_data_commons.AccessManager.Stores.Memory.{memory_store}
use beckn_data_commons.AccessManager.App.{post_grants}
use beckn_data_commons.AccessManager.App.Guarded.{
  is_created, IsIssued, post_grants-guarded, post_grants-once,
}
use beckn_data_commons.Tests.Noble.{toy}
use beckn_data_commons.Tests.Data.{plain_zod, other_numbers, two_fields}
use beckn_data_commons.Tests.Auth.{
  am, delivery, header, header-parsed, delivery-accepted, before_expiry,
}
use beckn_data_commons.Tests.Manager.{request, manager}

abbrev request_json : Json
request_json = obj (
    field "grantee" (grantee_json request.grantee) (
      field "provider" (provider_json request.provider) (
        field "resource" (resource_json request.resource) (
          field "scope" (scope_json two_fields) (
            field "licenseClass" (str "research-only")
              (field "purpose" (str "study") (field "transactionId" (str "t-1") end)))))))

post_grants-guarded_example :
    (let r =
        post_grants memory_store toy plain_zod manager
          (some (participant_verify toy other_numbers am))
          delivery
          1000
          "g-1"
          "n-1"
          empty
          Memory.empty in
      ((is_created r.0 ≡ false) × (r.2 ≡ Memory.empty))
      ⊎ ((key_id : String) × ((participant_verify toy other_numbers am delivery empty).0
            ≡ accepted key_id)
          × IsIssued memory_store toy plain_zod manager 1000 "g-1" "n-1" delivery.body Memory.empty
              (r.0, r.2)))
post_grants-guarded_example =
    post_grants-guarded memory_store toy plain_zod manager 1000 "g-1" "n-1"
      (participant_verify toy other_numbers am) delivery empty Memory.empty

post_grants-once_example :
    (let r =
        post_grants memory_store toy plain_zod manager
          (some (participant_verify toy other_numbers am))
          delivery
          1000
          "g-2"
          "n-2"
          (after toy other_numbers am [] (participant_verify toy other_numbers am delivery empty).1)
          Memory.empty in
      (is_created r.0 ≡ false) × (r.2 ≡ Memory.empty))
post_grants-once_example =
    post_grants-once memory_store toy plain_zod manager other_numbers am delivery delivery [] empty
      "bap" header header 1000 "g-2" "n-2" Memory.empty header-parsed header-parsed refl tt
      before_expiry delivery-accepted
