-- ===== src/AccessManager/Types.antt =====
-- services/access-manager/src/stores/types.ts: the ledger's rows and the interface of the stores.
use beckn_data_commons.Base.{ℕ, String, Option, List}
use beckn_data_commons.Domain.{LicenseClass}
use beckn_data_commons.Grant.Types.{GrantScope, SignedAccessGrant}

pub data GrantStatus : Type 0 where
  issued revoked expired : GrantStatus

pub record GrantRecord : Type 0 where
  pub grant_id : String
  pub grantee_id : String
  pub bpp_id : String
  pub resource_id : String
  pub offer_id : String
  pub scope : GrantScope
  pub license : LicenseClass
  pub purpose : String
  pub transaction_id : String
  pub issued_at : ℕ
  pub expires_at : ℕ
  pub status : GrantStatus
  pub signed_grant : SignedAccessGrant

pub data RevokeOutcome : Type 0 where
  now_revoked not_found already_revoked : RevokeOutcome

-- A store with the state `S`; an operation that writes returns the new state.
pub record GrantStore (S : Type 0) : Type 0 where
  pub save : GrantRecord → S → S
  pub get : String → S → Option GrantRecord
  pub list_by_grantee : String → S → List GrantRecord
  pub revoke : String → String → S → RevokeOutcome × S
  pub mark_expired : ℕ → S → ℕ × S
