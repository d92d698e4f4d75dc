-- ===== src/Tests/Grants.antt =====
-- Grants: their claims at concrete inputs.
use beckn_data_commons.Base.{String, true, ◌≡◌, ◌↔◌, some}
use beckn_data_commons.Ed25519.{sign_canonical}
use beckn_data_commons.Grant.Types.{SignedAccessGrant, claims_json, signed_json}
use beckn_data_commons.Grant.Parse.{signature_ok}
use beckn_data_commons.Grant.Verify.{accepted, verify_grant}
use beckn_data_commons.Grant.Verify.Authorized.{IsAuthorized, verify_grant-accepted_iff}
use beckn_data_commons.Grant.Verify.Issued.{issue_grant_total}
use beckn_data_commons.Tests.Noble.{toy, toy-IsNoble}
use beckn_data_commons.Tests.Data.{
  plain_zod, am_key, am_key-derived, lease, lease-ClaimsAreValid, at_provider,
}

abbrev lease_signed :
    (signature : String) × (sign_canonical toy (claims_json lease) am_key ≡ some signature)
    × (signature_ok signature ≡ true)
lease_signed =
    let (signature, issued, signed, form) =
      issue_grant_total toy toy-IsNoble plain_zod lease lease-ClaimsAreValid am_key
        am_key-derived in
    (signature, signed, form)

abbrev signed_lease : SignedAccessGrant
signed_lease = record { claims = lease; signature = lease_signed.0 }

verify_grant-accepted_iff_example :
    (verify_grant toy plain_zod (signed_json signed_lease) at_provider ≡ accepted lease)
    ↔ IsAuthorized toy plain_zod (signed_json signed_lease) at_provider lease
verify_grant-accepted_iff_example =
    verify_grant-accepted_iff toy plain_zod (signed_json signed_lease) at_provider lease
