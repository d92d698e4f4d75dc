-- ===== src/Grant/Types.antt =====
-- The claims of a grant and the grant on the wire, with the JSON that they are written as.
pub mod Wire
pub mod ReadBack
use beckn_data_commons.Base.{ℕ, String, Bool, Option, List}
use beckn_data_commons.Js.{nat}
use beckn_data_commons.Json.{Json, bool, num, str, arr, obj, end, field}
use beckn_data_commons.Domain.{LicenseClass, license_text}
use beckn_data_commons.Zod.{field_if, string_items}

pub data GrantScopeKind : Type 0 where
  full sample subset : GrantScopeKind

abbrev pub kind_text : GrantScopeKind → String
kind_text full = "full"
kind_text sample = "sample"
kind_text subset = "subset"

pub record GrantScope : Type 0 where
  pub kind : GrantScopeKind
  pub fields : Option (List String)
  pub max_downloads : Option ℕ

pub record Grantee : Type 0 where
  pub id : String
  pub public_key : Option String

pub record Provider : Type 0 where
  pub bpp_id : String
  pub bpp_uri : String

pub record ResourceRef : Type 0 where
  pub resource_id : String
  pub offer_id : String

-- the literal `v` has one value, "bdc-grant/1"
pub record AccessGrantClaims : Type 0 where
  pub grant_id : String
  pub issuer : String
  pub issuer_key_id : String
  pub grantee : Grantee
  pub provider : Provider
  pub resource : ResourceRef
  pub scope : GrantScope
  pub license : LicenseClass
  pub purpose : String
  pub transaction_id : String
  pub issued_at : ℕ
  pub not_before : ℕ
  pub expires_at : ℕ
  pub revocable : Bool
  pub nonce : String

-- the literal `alg` has one value, "ed25519"
pub record SignedAccessGrant : Type 0 where
  pub claims : AccessGrantClaims
  pub signature : String

pub record IssueGrantRequest : Type 0 where
  pub grantee : Grantee
  pub provider : Provider
  pub resource : ResourceRef
  pub scope : GrantScope
  pub license : LicenseClass
  pub purpose : String
  pub transaction_id : String
  pub ttl_seconds : Option ℕ

abbrev strings_json : List String → Json
strings_json ss = arr (string_items ss)

abbrev pub nat_json : ℕ → Json
nat_json n = num (nat n)

abbrev pub grantee_json : Grantee → Json
grantee_json g = obj (field "id" (str g.id) (field_if "publicKey" str g.public_key end))

abbrev pub provider_json : Provider → Json
provider_json p = obj (field "bppId" (str p.bpp_id) (field "bppUri" (str p.bpp_uri) end))

abbrev pub resource_json : ResourceRef → Json
resource_json r =
    obj (field "resourceId" (str r.resource_id) (field "offerId" (str r.offer_id) end))

abbrev pub scope_json : GrantScope → Json
scope_json s = obj (
    field "kind" (str (kind_text s.kind)) (
      field_if "fields" strings_json s.fields
        (field_if "maxDownloads" nat_json s.max_downloads end)))

unfoldable pub claims_json : AccessGrantClaims → Json
claims_json c = obj (
    field "v" (str "bdc-grant/1") (
      field "grantId" (str c.grant_id) (
        field "issuer" (str c.issuer) (
          field "issuerKeyId" (str c.issuer_key_id) (
            field "grantee" (grantee_json c.grantee) (
              field "provider" (provider_json c.provider) (
                field "resource" (resource_json c.resource) (
                  field "scope" (scope_json c.scope) (
                    field "licenseClass" (str (license_text c.license)) (
                      field "purpose" (str c.purpose) (
                        field "transactionId" (str c.transaction_id) (
                          field "issuedAt" (nat_json c.issued_at) (
                            field "notBefore" (nat_json c.not_before) (
                              field "expiresAt" (nat_json c.expires_at) (
                                field "revocable" (bool c.revocable)
                                  (field "nonce" (str c.nonce) end))))))))))))))))

unfoldable pub signed_json : SignedAccessGrant → Json
signed_json g = obj (
    field "claims" (claims_json g.claims)
      (field "alg" (str "ed25519") (field "signature" (str g.signature) end)))
