-- ===== src/Consent.antt =====
-- The Access Manager and the providers together: a grant from its issue to its last download.
pub mod Confirmed
pub mod Presented
pub mod Downloaded
use beckn_data_commons.Base.{ℕ, String, false, ◌≡◌, ◌≢◌, refl, some, List, All}
use beckn_data_commons.Ed25519.{Noble, IsNoble, public_key_for}
use beckn_data_commons.Zod.{Zod}
use beckn_data_commons.Grant.Types.{SignedAccessGrant, IssueGrantRequest, signed_json}
use beckn_data_commons.Grant.Parse.Sound.{RequestIsValid}
use beckn_data_commons.Grant.Verify.Authorized.{Authorizes, verify_grant-accepted_iff}
use beckn_data_commons.AccessManager.Types.{not_found, GrantStore}
use beckn_data_commons.AccessManager.Stores.Postgres
use beckn_data_commons.AccessManager.Stores.Postgres.{Tables, empty, postgres_store}
use beckn_data_commons.AccessManager.Stores.Postgres.Shared.{
  IsFresh, apply_all-RevokedAreListed, empty-RevokedAreListed, revoke-listed,
}
use beckn_data_commons.AccessManager.Stores.Ledger.Terminal.{Operation, apply_all}
use beckn_data_commons.AccessManager.Service.{GrantServiceDeps, claims_for, record_of, issue}
use beckn_data_commons.AccessManager.Service.Issues.{IdsAreValid, issue-saved}
use beckn_data_commons.Bpp.Stores.{RevocationStore, RedemptionStore, postgres_revocations}
use beckn_data_commons.Bpp.Stores.Laws.{postgres_revocations-IsRevocationStore}
use beckn_data_commons.Bpp.Download.{
  ResolvedFile, RedeemParams, served, offline_options, resolved, redeem_grant,
}
use beckn_data_commons.Bpp.Download.Served.{IsWithin, redeem_grant-served_iff}
use beckn_data_commons.Bpp.Download.Ledger.{Event, run, is_of, number_of}
use beckn_data_commons.Bpp.Download.Ledger.Limits.{run-revoked}

-- Whatever the Access Manager has done since its tables were created, with no grant saved as
-- revoked: once it answers anything but `not-found` to a revocation, a provider that reads the same
-- database serves no download under the identifier of the grant, whatever grants are presented to it
-- and revoked after.
pub revoke-run :
    {C : Type 0} (redemptions : RedemptionStore C) (noble : Noble) (zod : Zod) (os : List Operation)
    (grant_id reason : String) (events : List Event) (counts : C)
    → All IsFresh os
    → (Postgres.revoke grant_id reason (apply_all postgres_store os empty)).0 ≢ not_found
    → number_of (is_of grant_id) (
        run postgres_revocations redemptions noble zod events
          (Postgres.revoke grant_id reason (apply_all postgres_store os empty)).1.grant_revocations
          counts)
      ≡ 0
revoke-run redemptions noble zod os grant_id reason events counts fresh known =
    run-revoked postgres_revocations redemptions noble zod postgres_revocations-IsRevocationStore
      grant_id events _ counts
      (revoke-listed _ grant_id reason
        (apply_all-RevokedAreListed os empty fresh empty-RevokedAreListed) known)

-- A grant that the Access Manager issues for a valid request is served at a provider that trusts its
-- key, for a request that the claims authorize, when it is not revoked, its file is there and the
-- next redemption is within its cap.
pub issue-redeem_grant :
    {S R C : Type 0} (noble : Noble) (zod : Zod) (store : GrantStore S)
    (revocations : RevocationStore R) (redemptions : RedemptionStore C) (deps : GrantServiceDeps)
    (req : IssueGrantRequest) (now_seconds : ℕ) (grant_id nonce : String) (s : S)
    (params : RedeemParams) (ledger : R) (counts : C) (file : ResolvedFile)
    → IsNoble noble
    → public_key_for noble deps.private_key ≡ some params.access_manager_public_key
    → params.access_manager_public_key ≢ ""
    → RequestIsValid zod req
    → IdsAreValid zod deps grant_id nonce
    → Authorizes (claims_for deps req now_seconds grant_id nonce) (offline_options params)
    → revocations.is_revoked grant_id ledger ≡ false
    → resolved params (claims_for deps req now_seconds grant_id nonce) ≡ some file
    → IsWithin (redemptions.record_redemption grant_id counts).0 req.scope.max_downloads
    → (g : SignedAccessGrant) × (issue noble zod store deps req now_seconds grant_id nonce s
        ≡ some (g, store.save (record_of (claims_for deps req now_seconds grant_id nonce) g) s))
      × ((redeem_grant revocations redemptions noble zod
            (record params { signed_grant = signed_json g })
            ledger
            counts).0
          ≡ served
              (claims_for deps req now_seconds grant_id nonce)
              file
              (redemptions.record_redemption grant_id counts).0)
unfolding claims_for
issue-redeem_grant noble zod store revocations redemptions deps req now_seconds grant_id nonce s
      params ledger counts file laws key configured r ids a stands available within =
    let (g, made, good) =
      issue-saved noble zod store deps req now_seconds grant_id nonce s (offline_options params)
        laws key r ids a in
    (
      g,
      made,
      (redeem_grant-served_iff revocations redemptions noble zod
            (record params { signed_grant = signed_json g }) ledger counts
            (claims_for deps req now_seconds grant_id nonce) file _).1
          (record {
            configured = configured;
            authorized = (verify_grant-accepted_iff noble zod _ _ _).0 good;
            stands = stands;
            available = available;
            counted = refl;
            within = within;
          }),
    )
