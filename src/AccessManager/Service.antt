-- ===== src/AccessManager/Service.antt =====
-- services/access-manager/src/service.ts: `GrantService` over a store.
pub mod Issues
use beckn_data_commons.Base.{ℕ, ◌+◌, String, Bool, true, Option, none, some, List, or_else, ◌>>=◌}
use beckn_data_commons.Ed25519.{Noble}
use beckn_data_commons.Zod.{Zod}
use beckn_data_commons.Grant.Types.{
  AccessGrantClaims, SignedAccessGrant, IssueGrantRequest, claims_json,
}
use beckn_data_commons.Grant.Parse.{parse_claims}
use beckn_data_commons.Grant.Issue.{issue_grant}
use beckn_data_commons.AccessManager.Types.{
  GrantStatus, issued, GrantRecord, RevokeOutcome, GrantStore,
}

-- the dependencies but the store
pub record GrantServiceDeps : Type 0 where
  pub am_id : String
  pub issuer_key_id : String
  pub private_key : String
  pub public_key : String
  pub ttl_seconds : ℕ

-- The object that `issue` gives to the schema, with what `randomUUID()` returned twice.
unfoldable pub claims_for :
    GrantServiceDeps → IssueGrantRequest → ℕ → String → String → AccessGrantClaims
claims_for deps req now_seconds grant_id nonce = record {
  grant_id = grant_id;
  issuer = deps.am_id;
  issuer_key_id = deps.issuer_key_id;
  grantee = req.grantee;
  provider = req.provider;
  resource = req.resource;
  scope = req.scope;
  license = req.license;
  purpose = req.purpose;
  transaction_id = req.transaction_id;
  issued_at = now_seconds;
  not_before = now_seconds;
  expires_at = now_seconds + or_else req.ttl_seconds deps.ttl_seconds;
  revocable = true;
  nonce = nonce;
}

unfoldable pub record_of : AccessGrantClaims → SignedAccessGrant → GrantRecord
record_of claims signed = record {
  grant_id = claims.grant_id;
  grantee_id = claims.grantee.id;
  bpp_id = claims.provider.bpp_id;
  resource_id = claims.resource.resource_id;
  offer_id = claims.resource.offer_id;
  scope = claims.scope;
  license = claims.license;
  purpose = claims.purpose;
  transaction_id = claims.transaction_id;
  issued_at = claims.issued_at;
  expires_at = claims.expires_at;
  status = issued;
  signed_grant = signed;
}

module _ (noble : Noble) (zod : Zod) {S : Type 0} (store : GrantStore S)
    (deps : GrantServiceDeps) where
  -- an error of the schema or of the key is thrown before the store is written
  unfoldable pub issue :
      IssueGrantRequest → ℕ → String → String → S → Option (SignedAccessGrant × S)
  issue req now_seconds grant_id nonce s = do
    claims ← parse_claims zod (claims_json (claims_for deps req now_seconds grant_id nonce))
    signed ← issue_grant noble zod claims deps.private_key
    some (signed, store.save (record_of claims signed) s)

module _ {S : Type 0} (store : GrantStore S) where
  abbrev pub get : String → S → Option GrantRecord
  get grant_id s = store.get grant_id s

  abbrev pub list : String → S → List GrantRecord
  list grantee_id s = store.list_by_grantee grantee_id s

  abbrev pub revoke : String → String → S → RevokeOutcome × S
  revoke grant_id reason s = store.revoke grant_id reason s

  abbrev pub sweep_expired : ℕ → S → ℕ × S
  sweep_expired now_seconds s = store.mark_expired now_seconds s
