-- ===== src/Tests/Data.antt =====
-- Concrete keys, claims, messages and stores.
use beckn_data_commons.Base.{String, true, not, ◌==◌, ◌≡◌, refl, none, some, [], ◌∷◌, inr, arith}
use beckn_data_commons.Js.{Number, non_finite}
use beckn_data_commons.Js.Text.{all_chars}
use beckn_data_commons.Ed25519.{public_key_for, assert_hex}
use beckn_data_commons.Zod.{Zod}
use beckn_data_commons.Domain.{research_only}
use beckn_data_commons.Grant.Types.{subset, GrantScope, AccessGrantClaims}
use beckn_data_commons.Grant.Parse.RoundTrip.{ScopeIsValid, ClaimsAreValid}
use beckn_data_commons.Grant.Verify.{VerifyGrantOptions}
use beckn_data_commons.Grant.Verify.Authorized.{Authorizes}
use beckn_data_commons.Tests.Noble.{toy}

abbrev pub plain_zod : Zod
plain_zod = record {
  uuid = λ s. not (s == "");
  url = λ s. not (s == "");
  datetime = λ s. not (s == "");
  message = λ schema v. "invalid";
}

abbrev pub other_numbers : String → Number
other_numbers s = non_finite "NaN"

abbrev pub am_key : String
am_key = "00112233445566778899aabbccddeeff00112233445566778899aabbccddeeff"

pub am_key-derived : public_key_for toy am_key ≡ some am_key
unfolding public_key_for assert_hex all_chars
am_key-derived = refl

abbrev pub two_fields : GrantScope
two_fields = record { kind = subset; fields = some ("age" ∷ "city" ∷ []); max_downloads = some 2 }

abbrev pub lease : AccessGrantClaims
lease = record {
  grant_id = "g-1";
  issuer = "am";
  issuer_key_id = "am|key-1|ed25519";
  grantee = record { id = "lab"; public_key = none };
  provider = record { bpp_id = "bpp"; bpp_uri = "http://bpp" };
  resource = record { resource_id = "census"; offer_id = "offer-1" };
  scope = two_fields;
  license = research_only;
  purpose = "study";
  transaction_id = "t-1";
  issued_at = 1000;
  not_before = 1000;
  expires_at = 4600;
  revocable = true;
  nonce = "n-1";
}

pub two_fields-ScopeIsValid : ScopeIsValid two_fields
two_fields-ScopeIsValid = record { fields = refl; cap = refl; named = refl }

pub lease-ClaimsAreValid : ClaimsAreValid plain_zod lease
lease-ClaimsAreValid = record {
  grant_id = refl;
  issuer = refl;
  issuer_key_id = refl;
  grantee = refl;
  bpp_id = refl;
  bpp_uri = refl;
  resource_id = refl;
  offer_id = refl;
  scope = two_fields-ScopeIsValid;
  purpose = refl;
  transaction_id = refl;
  window = refl;
  nonce = refl;
}

abbrev pub at_provider : VerifyGrantOptions
at_provider = record {
  issuer_public_key_hex = am_key;
  now_seconds = 1200;
  expected_bpp_id = some "bpp";
  requested =
      some
        (record { resource_id = "census"; offer_id = some "offer-1"; fields = some ("age" ∷ []) });
  clock_skew_seconds = some 30;
}

pub lease-Authorizes : Authorizes lease at_provider
lease-Authorizes = record {
  begun = omega arith;
  not_over = omega arith;
  provider = inr refl;
  request = (refl, inr refl, inr (refl, tt));
}
