-- ===== src/Grant/Issue.antt =====
-- `issueGrant`: parse the claims, then sign them.
use beckn_data_commons.Base.{String, Option, some, ◌>>=◌}
use beckn_data_commons.Ed25519.{Noble, sign_canonical}
use beckn_data_commons.Zod.{Zod}
use beckn_data_commons.Grant.Types.{AccessGrantClaims, SignedAccessGrant, claims_json}
use beckn_data_commons.Grant.Parse.{parse_claims}

-- a malformed grant and a malformed key throw
unfoldable pub issue_grant : Noble → Zod → AccessGrantClaims → String → Option SignedAccessGrant
issue_grant noble zod claims issuer_private_key_hex = do
  valid ← parse_claims zod (claims_json claims)
  signature ← sign_canonical noble (claims_json valid) issuer_private_key_hex
  some (record { claims = valid; signature = signature })
