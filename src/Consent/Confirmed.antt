-- ===== src/Consent/Confirmed.antt =====
-- The three services together: a grant from a confirmation at the platform to a download at a provider.
use beckn_data_commons.Base.{ℕ, String, false, ◌≡◌, ◌≢◌, Option, some, List}
use beckn_data_commons.Json.{Json, obj, field, end, wire}
use beckn_data_commons.Ed25519.{Noble, IsNoble, public_key_for}
use beckn_data_commons.Zod.{Zod}
use beckn_data_commons.Grant.Types.{
  AccessGrantClaims, SignedAccessGrant, IssueGrantRequest, signed_json,
}
use beckn_data_commons.Grant.Types.Wire.{wire-signed_json}
use beckn_data_commons.Grant.Parse.Sound.{RequestIsValid}
use beckn_data_commons.Grant.Verify.Authorized.{Authorizes}
use beckn_data_commons.Http.{Request, Response}
use beckn_data_commons.AccessManager.Types.{GrantStore}
use beckn_data_commons.AccessManager.Service.{GrantServiceDeps, claims_for, record_of}
use beckn_data_commons.AccessManager.Service.Issues.{IdsAreValid}
use beckn_data_commons.AccessManager.App.{Reply, answered}
use beckn_data_commons.Bpp.Stores.{RevocationStore, RedemptionStore}
use beckn_data_commons.Bpp.Download.{
  ResolvedFile, RedeemParams, served, offline_options, resolved, redeem_grant,
}
use beckn_data_commons.Bpp.Download.Served.{IsWithin}
use beckn_data_commons.Bap.Orchestrator.{CallbackResponse}
use beckn_data_commons.Bap.Orchestrator.Journey.{
  BppEndpoint, ConfirmParams, single_result, confirm_request, request_json,
}
use beckn_data_commons.Bap.Transport.{Sign, credential_of}
use beckn_data_commons.Bap.Client.{confirm_reply}
use beckn_data_commons.Bap.Client.Confirmed.{Carries, called, created, confirm_reply-issue}
use beckn_data_commons.Consent.{issue-redeem_grant}

module _ {S R C : Type 0} (noble : Noble) (zod : Zod) (store : GrantStore S)
    (revocations : RevocationStore R) (redemptions : RedemptionStore C) (deps : GrantServiceDeps)
    (now_seconds : ℕ) (grant_id nonce : String) (fetch : Request → S → Option Response × S)
    (url : String) (sign : Sign) (credential : Option String) (confirmation : ConfirmParams)
    (target : BppEndpoint) (s : S) where
  abbrev req : IssueGrantRequest
  req = confirm_request confirmation target

  abbrev claims : AccessGrantClaims
  claims = claims_for deps req now_seconds grant_id nonce

  abbrev call : Option Response × S
  call =
      called store noble zod deps now_seconds grant_id nonce fetch url sign credential confirmation
        target s

  abbrev route : Reply × S
  route =
      created store noble zod deps now_seconds grant_id nonce fetch url sign credential confirmation
        target s

  -- When the provider's callback has come and the Access Manager's route answers the request that the
  -- platform makes of it, a valid confirmation is replied to with the contract and a grant, which the
  -- Access Manager has saved. A provider that trusts the Access Manager's key serves the download to
  -- whoever presents that grant, as JSON carries it, for a request that the claims authorize, when the
  -- grant is not revoked, its file is there and the next redemption is within its cap.
  pub confirm_reply-redeem_grant :
      (late failed : String) (responses : List CallbackResponse) (contract : Json) (res : Response)
      (params : RedeemParams) (ledger : R) (counts : C) (file : ResolvedFile)
      → IsNoble noble
      → public_key_for noble deps.private_key ≡ some params.access_manager_public_key
      → params.access_manager_public_key ≢ ""
      → RequestIsValid zod req
      → IdsAreValid zod deps grant_id nonce
      → single_result responses ≡ some contract
      → credential_of sign (request_json req) ≡ some credential
      → call.0 ≡ some res
      → Carries route.0 res
      → call.1 ≡ route.1
      → Authorizes claims (offline_options params)
      → revocations.is_revoked grant_id ledger ≡ false
      → resolved params claims ≡ some file
      → IsWithin (redemptions.record_redemption grant_id counts).0 req.scope.max_downloads
      → (g : SignedAccessGrant) × (confirm_reply fetch url sign late failed confirmation target
            responses s
          ≡ (
            answered 200 (obj (field "contract" contract (field "grant" (signed_json g) end))),
            store.save (record_of claims g) s,
          ))
        × ((redeem_grant revocations redemptions noble zod
              (record params { signed_grant = wire (signed_json g) })
              ledger
              counts).0
            ≡ served claims file (redemptions.record_redemption grant_id counts).0)
  confirm_reply-redeem_grant late failed responses contract res params ledger counts file laws key
        configured valid ids collected signed answer carried routed authorized stands available
        within =
      let (g, made, given) =
        issue-redeem_grant noble zod store revocations redemptions deps req now_seconds grant_id
          nonce s params ledger counts file laws key configured valid ids authorized stands
          available within in
      (
        g,
        confirm_reply-issue store noble zod deps now_seconds grant_id nonce fetch url sign
            credential confirmation target s late failed responses contract res g
            (store.save (record_of claims g) s) valid made collected signed answer carried routed,
        rw (wire-signed_json g) given,
      )
