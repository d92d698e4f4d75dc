-- ===== src/Tests/Manager.antt =====
-- The Access Manager and a provider at concrete inputs.
use beckn_data_commons.Base.{◌≡◌, inr, refl, arith, none, some}
use beckn_data_commons.Domain.{research_only}
use beckn_data_commons.Grant.Types.{
  AccessGrantClaims, SignedAccessGrant, IssueGrantRequest, signed_json,
}
use beckn_data_commons.Grant.Parse.Sound.{RequestIsValid}
use beckn_data_commons.Grant.Verify.{accepted, verify_grant}
use beckn_data_commons.Grant.Verify.Authorized.{Authorizes}
use beckn_data_commons.AccessManager.Types.{GrantRecord}
use beckn_data_commons.AccessManager.Service.{GrantServiceDeps, claims_for, issue}
use beckn_data_commons.AccessManager.Service.Issues.{
  IdsAreValid, RecordSays, ClaimsSay, issue-verify_grant,
}
use beckn_data_commons.AccessManager.Stores.Memory
use beckn_data_commons.AccessManager.Stores.Memory.{memory_store, is_revoked}
use beckn_data_commons.Tests.Noble.{toy, toy-IsNoble}
use beckn_data_commons.Tests.Data.{
  plain_zod, am_key, am_key-derived, two_fields, two_fields-ScopeIsValid, at_provider,
}

abbrev pub request : IssueGrantRequest
request = record {
  grantee = record { id = "lab"; public_key = none };
  provider = record { bpp_id = "bpp"; bpp_uri = "http://bpp" };
  resource = record { resource_id = "census"; offer_id = "offer-1" };
  scope = two_fields;
  license = research_only;
  purpose = "study";
  transaction_id = "t-1";
  ttl_seconds = none;
}

pub request-RequestIsValid : RequestIsValid plain_zod request
request-RequestIsValid = record {
  grantee = refl;
  bpp_id = refl;
  bpp_uri = refl;
  resource_id = refl;
  offer_id = refl;
  scope = two_fields-ScopeIsValid;
  purpose = refl;
  transaction_id = refl;
}

abbrev pub manager : GrantServiceDeps
manager = record {
  am_id = "am";
  issuer_key_id = "am|key-1|ed25519";
  private_key = am_key;
  public_key = am_key;
  ttl_seconds = 3600;
}

pub ids-IdsAreValid : IdsAreValid plain_zod manager "g-1" "n-1"
ids-IdsAreValid = record { grant_id = refl; issuer = refl; issuer_key_id = refl; nonce = refl }

pub claims-Authorizes : Authorizes (claims_for manager request 1000 "g-1" "n-1") at_provider
unfolding claims_for
claims-Authorizes = record {
  begun = omega arith;
  not_over = omega arith;
  provider = inr refl;
  request = (refl, inr refl, inr (refl, tt));
}

issue-verify_grant_example :
    (g : SignedAccessGrant) × (r : GrantRecord) × (c : AccessGrantClaims) × (issue toy plain_zod
        memory_store manager request 1000 "g-1" "n-1" Memory.empty
      ≡ some (g, Memory.save r Memory.empty))
    × RecordSays manager request 1000 "g-1" g r
    × ClaimsSay manager request 1000 "g-1" "n-1" c
    × (verify_grant toy plain_zod (signed_json g) at_provider ≡ accepted c)
issue-verify_grant_example =
    issue-verify_grant toy plain_zod memory_store manager request 1000 "g-1" "n-1" Memory.empty
      at_provider toy-IsNoble am_key-derived request-RequestIsValid ids-IdsAreValid
      claims-Authorizes
