-- ===== src/Bpp/Download.antt =====
-- services/bpp/src/download.ts: the redemption of a grant, with both halves of its verification.
pub mod Presented
pub mod Served
pub mod Ledger
use beckn_data_commons.Base.{
  ℕ, String, Bool, true, false, ◌==◌, Option, none, some, List, [], ◌∷◌, ltb, if◌then◌else◌,
}
use beckn_data_commons.Json.{Json}
use beckn_data_commons.Ed25519.{Noble}
use beckn_data_commons.Zod.{Zod}
use beckn_data_commons.Grant.Types.{GrantScopeKind, AccessGrantClaims}
use beckn_data_commons.Grant.Verify.{
  GrantRejectionReason, malformed, GrantVerification, rejected, accepted, Requested,
  VerifyGrantOptions, verify_grant,
}
use beckn_data_commons.Bpp.Stores.{RevocationStore, RedemptionStore}

pub record ResolvedFile : Type 0 where
  pub path : String
  pub filename : String
  pub content_type : String

-- `resourceId`, `offerId` and `scopeKind`
abbrev pub FileResolver : Type 0
FileResolver = String → String → GrantScopeKind → Option ResolvedFile

-- the parameters but the stores
pub record RedeemParams : Type 0 where
  pub signed_grant : Json
  pub requested : Requested
  pub bpp_id : String
  pub access_manager_public_key : String
  pub now_seconds : ℕ
  pub clock_skew_seconds : ℕ
  pub resolve_file : FileResolver

pub data RedeemReason : Type 0 where
  issuer_key_unconfigured revoked resource_unavailable download_limit_exceeded : RedeemReason
  offline : GrantRejectionReason → RedeemReason

pub data RedeemResult : Type 0 where
  served : AccessGrantClaims → ResolvedFile → ℕ → RedeemResult
  refused : ℕ → RedeemReason → Option String → RedeemResult

abbrev pub offline_status : GrantRejectionReason → ℕ
offline_status malformed = 400
offline_status _ = 403

abbrev pub offline_options : RedeemParams → VerifyGrantOptions
offline_options params = record {
  issuer_public_key_hex = params.access_manager_public_key;
  now_seconds = params.now_seconds;
  expected_bpp_id = some params.bpp_id;
  requested = some params.requested;
  clock_skew_seconds = some params.clock_skew_seconds;
}

-- `cap !== undefined && redemptionCount > cap`
abbrev pub over_cap : Option ℕ → ℕ → Bool
over_cap none count = false
over_cap (some cap) count = ltb cap count

abbrev pub resolved : RedeemParams → AccessGrantClaims → Option ResolvedFile
resolved params claims =
    params.resolve_file claims.resource.resource_id claims.resource.offer_id claims.scope.kind

module _ {R C : Type 0} (revocations : RevocationStore R) (redemptions : RedemptionStore C) where
  -- 2b: the reservation of a slot
  unfoldable pub reserve : AccessGrantClaims → ResolvedFile → C → RedeemResult × C
  reserve claims file counts =
      let (count, counts') = redemptions.record_redemption claims.grant_id counts in
      if over_cap claims.scope.max_downloads count
      then (refused 403 download_limit_exceeded none, counts')
      else (served claims file count, counts')

  -- the file, before a slot is consumed
  unfoldable pub find_file : RedeemParams → AccessGrantClaims → C → RedeemResult × C
  find_file params claims counts = elim (resolved params claims) [
    | none ↦ (refused 404 resource_unavailable none, counts)
    | some file ↦ reserve claims file counts
  ]

  -- 2a: the revocation
  unfoldable pub check_online : RedeemParams → AccessGrantClaims → R → C → RedeemResult × C
  check_online params claims ledger counts =
      if revocations.is_revoked claims.grant_id ledger
      then (refused 403 revoked none, counts)
      else find_file params claims counts

  module _ (noble : Noble) (zod : Zod) where
    -- 1: the offline half
    unfoldable pub check_offline : RedeemParams → R → C → RedeemResult × C
    check_offline params ledger counts =
        elim (verify_grant noble zod params.signed_grant (offline_options params)) [
          | rejected reason detail ↦
              (refused (offline_status reason) (offline reason) detail, counts)
          | accepted claims ↦ check_online params claims ledger counts
        ]

    unfoldable pub redeem_grant : RedeemParams → R → C → RedeemResult × C
    redeem_grant params ledger counts =
        if params.access_manager_public_key == ""
        then (refused 503 issuer_key_unconfigured none, counts)
        else check_offline params ledger counts
