-- ===== src/Bap/Orchestrator/Journey/Requests.antt =====
-- What `confirm` sends is what the Access Manager reads.
use beckn_data_commons.Base.{◌≡◌, some}
use beckn_data_commons.Zod.{Zod}
use beckn_data_commons.Grant.Parse.{parse_issue_request}
use beckn_data_commons.Grant.Parse.RoundTrip.{
  parse_grantee-grantee_json, parse_provider-provider_json, parse_resource-resource_json,
  grant_scope-scope_json, license_class-license_text,
}
use beckn_data_commons.Grant.Parse.Sound.{RequestIsValid}
use beckn_data_commons.Bap.Orchestrator.Journey.{
  BppEndpoint, ConfirmParams, confirm_request, request_json,
}

-- The request for a grant that `confirm` builds, when it meets the schema's conditions, is read back
-- by the Access Manager's parser as it is, with no life time of its own.
pub parse_issue_request-confirm_request :
    (zod : Zod) (params : ConfirmParams) (target : BppEndpoint)
    → RequestIsValid zod (confirm_request params target)
    → parse_issue_request zod (request_json (confirm_request params target))
      ≡ some (confirm_request params target)
unfolding parse_issue_request request_json confirm_request
parse_issue_request-confirm_request zod params target h = rw (
  parse_grantee-grantee_json params.grantee h.grantee,
  parse_provider-provider_json zod (confirm_request params target).provider h.bpp_id h.bpp_uri,
  parse_resource-resource_json (confirm_request params target).resource h.resource_id h.offer_id,
  grant_scope-scope_json (confirm_request params target).scope h.scope,
  license_class-license_text params.license,
  h.purpose,
  h.transaction_id,
)
