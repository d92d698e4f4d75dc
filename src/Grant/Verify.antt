-- ===== src/Grant/Verify.antt =====
-- `verifyGrant`: the offline half of verification. The online half is the caller's.
pub mod Authorized
pub mod Issued
use beckn_data_commons.Base.{
  ℕ, ◌+◌, ◌-◌, String, Bool, true, false, not, ◌&&◌, Option, none, some, List, [], ◌∷◌, ◌==◌, ltb,
  contains, select, or_else, if◌then◌else◌,
}
use beckn_data_commons.Js.Text.{join}
use beckn_data_commons.Json.{Json}
use beckn_data_commons.Ed25519.{Noble, verify_canonical}
use beckn_data_commons.Zod.{Zod, not_nil}
use beckn_data_commons.Grant.Types.{
  GrantScopeKind, full, sample, subset, GrantScope, AccessGrantClaims, SignedAccessGrant,
  claims_json,
}
use beckn_data_commons.Grant.Parse.{parse_signed_grant}
use Prim.Native.String

pub data GrantRejectionReason : Type 0 where
  malformed bad_signature not_yet_valid expired wrong_provider wrong_resource scope_insufficient :
      GrantRejectionReason

-- `accepted` carries `requiresRevocationCheck: true`, its only value
pub data GrantVerification : Type 0 where
  rejected : GrantRejectionReason → Option String → GrantVerification
  accepted : AccessGrantClaims → GrantVerification

pub record Requested : Type 0 where
  pub resource_id : String
  pub offer_id : Option String
  pub fields : Option (List String)

pub record VerifyGrantOptions : Type 0 where
  pub issuer_public_key_hex : String
  pub now_seconds : ℕ
  pub expected_bpp_id : Option String
  pub requested : Option Requested
  pub clock_skew_seconds : Option ℕ

-- `wanted && actual !== wanted`: an absent or empty text asks for nothing
abbrev pub differs : String → Option String → Bool
differs actual none = false
differs actual (some wanted) = not (wanted == "") && not (actual == wanted)

abbrev pub is_subset : GrantScopeKind → Bool
is_subset subset = true
is_subset _ = false

-- the requested fields that a `subset` grant does not list
unfoldable pub overreach : List String → List String → List String
overreach allowed requested = select (λ f. not (contains f allowed)) requested

unfoldable pub check_scope : AccessGrantClaims → Option (List String) → GrantVerification
check_scope claims none = accepted claims
check_scope claims (some fields) =
    let over = overreach (or_else claims.scope.fields []) fields in
    if is_subset claims.scope.kind && not_nil over
    then rejected scope_insufficient (some (String.◌++◌ "unauthorized fields: " (join ", " over)))
    else accepted claims

unfoldable pub check_requested : AccessGrantClaims → Option Requested → GrantVerification
check_requested claims none = accepted claims
check_requested claims (some r) =
    if not (claims.resource.resource_id == r.resource_id)
    then rejected wrong_resource none
    else if differs claims.resource.offer_id r.offer_id
    then rejected wrong_resource none
    else check_scope claims r.fields

-- the checks after the signature, in their order; `nowSeconds - skew` below zero is less than any
-- expiry, and so is 0
unfoldable pub check_claims : VerifyGrantOptions → AccessGrantClaims → GrantVerification
check_claims opts claims =
    let skew = or_else opts.clock_skew_seconds 30 in
    if ltb (opts.now_seconds + skew) claims.not_before
    then rejected not_yet_valid none
    else if ltb claims.expires_at (opts.now_seconds - skew)
    then rejected expired none
    else if differs claims.provider.bpp_id opts.expected_bpp_id
    then rejected wrong_provider none
    else check_requested claims opts.requested

module _ (noble : Noble) (zod : Zod) where
  unfoldable pub check_signature : VerifyGrantOptions → SignedAccessGrant → GrantVerification
  check_signature opts signed =
      if verify_canonical noble signed.signature (claims_json signed.claims)
        opts.issuer_public_key_hex
      then check_claims opts signed.claims
      else rejected bad_signature none

  unfoldable pub verify_grant : Json → VerifyGrantOptions → GrantVerification
  verify_grant signed opts = elim (parse_signed_grant zod signed) [
    | none ↦ rejected malformed (some (zod.message "SignedAccessGrant" signed))
    | some parsed ↦ check_signature opts parsed
  ]

-- opens the whole verification, for tests
unfoldable pub verification_code : Unit {0}
unfolding verify_grant check_signature check_claims check_requested check_scope overreach
verification_code = tt
