-- ===== src/Consent/Downloaded.antt =====
-- From a confirmation at the platform to the answer of GET /download at a provider, by the header that
-- the client writes.
use beckn_data_commons.Base.{ℕ, String, false, ◌==◌, ◌≡◌, ◌≢◌, ◌∙◌, ap, Option, some, List}
use beckn_data_commons.Js.{Number}
use beckn_data_commons.Json.{Json, obj, field, end}
use beckn_data_commons.Ed25519.{Noble, IsNoble, public_key_for}
use beckn_data_commons.Zod.{Zod}
use beckn_data_commons.Grant.Types.{
  AccessGrantClaims, SignedAccessGrant, IssueGrantRequest, signed_json,
}
use beckn_data_commons.Grant.Types.Wire.{wire-signed_json}
use beckn_data_commons.Grant.Parse.Sound.{RequestIsValid}
use beckn_data_commons.Grant.Verify.Authorized.{Authorizes}
use beckn_data_commons.Http.{Request, Response}
use beckn_data_commons.AccessManager.Types.{GrantStore}
use beckn_data_commons.AccessManager.Service.{GrantServiceDeps, claims_for, record_of}
use beckn_data_commons.AccessManager.Service.Issues.{IdsAreValid}
use beckn_data_commons.AccessManager.App.{answered}
use beckn_data_commons.Bpp.Stores.{RevocationStore, RedemptionStore}
use beckn_data_commons.Bpp.Download.{ResolvedFile, RedeemParams, offline_options, resolved}
use beckn_data_commons.Bpp.Download.Served.{IsWithin}
use beckn_data_commons.Bpp.App.{
  DownloadQuery, DownloadConfig, sent, params_of, reply_of, get_download,
}
use beckn_data_commons.Bap.Orchestrator.{CallbackResponse}
use beckn_data_commons.Bap.Orchestrator.Journey.{
  BppEndpoint, ConfirmParams, single_result, confirm_request, request_json,
}
use beckn_data_commons.Bap.Transport.{Sign, credential_of}
use beckn_data_commons.Bap.Client.{confirm_reply}
use beckn_data_commons.Bap.Client.Confirmed.{Carries, called, created}
use beckn_data_commons.Mcp.Gateway.{encode_grant_header}
use beckn_data_commons.Consent.Confirmed.{confirm_reply-redeem_grant}
use beckn_data_commons.Consent.Presented.{get_download-encode_grant_header}

module _ {S R C : Type 0} (noble : Noble) (zod : Zod) (store : GrantStore S)
    (revocations : RevocationStore R) (redemptions : RedemptionStore C) (deps : GrantServiceDeps)
    (now_seconds : ℕ) (grant_id nonce : String) (fetch : Request → S → Option Response × S)
    (url : String) (sign : Sign) (credential : Option String) (confirmation : ConfirmParams)
    (target : BppEndpoint) (s : S) (config : DownloadConfig) (other : String → Number)
    (q : DownloadQuery) (resource_id : String) (now_ms : ℕ) where
  abbrev presenting : Json → RedeemParams
  presenting grant = params_of config q grant resource_id now_ms

  abbrev issued_request : IssueGrantRequest
  issued_request = confirm_request confirmation target

  abbrev issued_claims : AccessGrantClaims
  issued_claims = claims_for deps issued_request now_seconds grant_id nonce

  -- When the provider's callback has come and the Access Manager's route answers the request that the
  -- platform makes of it, a valid confirmation is replied to with the contract and a grant, which the
  -- Access Manager has saved. GET /download of a provider that trusts the Access Manager's key, with the
  -- header that the client writes for that grant, sends the file, for a query with a resource that the
  -- claims authorize, when the grant is not revoked, its file is there and the next redemption is within
  -- its cap.
  pub confirm_reply-get_download :
      (late failed : String) (responses : List CallbackResponse) (contract : Json) (res : Response)
      (ledger : R) (counts : C) (file : ResolvedFile)
      → IsNoble noble
      → public_key_for noble deps.private_key ≡ some config.access_manager_public_key
      → config.access_manager_public_key ≢ ""
      → RequestIsValid zod issued_request
      → IdsAreValid zod deps grant_id nonce
      → single_result responses ≡ some contract
      → credential_of sign (request_json issued_request) ≡ some credential
      → (let answer =
            called store noble zod deps now_seconds grant_id nonce fetch url sign credential
              confirmation target s in
          let routed =
            created store noble zod deps now_seconds grant_id nonce fetch url sign credential
              confirmation target s in
          (answer.0 ≡ some res) × Carries routed.0 res × (answer.1 ≡ routed.1))
      → q.resource_id ≡ some resource_id
      → (resource_id == "") ≡ false
      → Authorizes issued_claims (offline_options (presenting (obj end)))
      → revocations.is_revoked grant_id ledger ≡ false
      → resolved (presenting (obj end)) issued_claims ≡ some file
      → IsWithin
          (redemptions.record_redemption grant_id counts).0
          issued_request.scope.max_downloads
      → (g : SignedAccessGrant) × (confirm_reply fetch url sign late failed confirmation target
            responses s
          ≡ (
            answered 200 (obj (field "contract" contract (field "grant" (signed_json g) end))),
            store.save (record_of issued_claims g) s,
          ))
        × ((get_download revocations redemptions noble zod config other
              (some (encode_grant_header (signed_json g)))
              q
              now_ms
              ledger
              counts).0
            ≡ sent file grant_id (redemptions.record_redemption grant_id counts).0)
  unfolding claims_for
  confirm_reply-get_download late failed responses contract res ledger counts file laws key
        configured valid ids collected signed (answer, carried, routed) asked given authorized
        stands available within =
      let (g, replied, redeemed) =
        confirm_reply-redeem_grant noble zod store revocations redemptions deps now_seconds grant_id
          nonce fetch url sign credential confirmation target s late failed responses contract res
          (presenting (obj end)) ledger counts file laws key configured valid ids collected signed
          answer carried routed authorized stands available within in
      let sent_file =
        get_download-encode_grant_header revocations redemptions noble zod config other g q
          resource_id now_ms ledger counts asked given in
      (g, replied, ap (λ r. r.0) sent_file ∙ ap reply_of (rw (wire-signed_json g) at redeemed))
