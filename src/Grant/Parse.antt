-- ===== src/Grant/Parse.antt =====
-- The schemas of a grant as functions that read a value; `none` is a schema error.
pub mod RoundTrip
pub mod Sound
pub mod Reads
use Prim.Native.String.{count}
use beckn_data_commons.Base.{
  ℕ, String, Bool, true, false, ◌&&◌, Option, none, some, List, [], ◌∷◌, ◌==◌, leb, eqb, ◌>>=◌,
  such_that, ◌>>◌, guard, if◌then◌else◌,
}
use beckn_data_commons.Js.Text.{all_chars}
use beckn_data_commons.Json.{Json, str, get}
use beckn_data_commons.Domain.{license_class}
use beckn_data_commons.Ed25519.{is_lower_hex}
use beckn_data_commons.Zod.{
  Zod, string, string_min_1, boolean, natural, positive, optional, strings, not_nil, strict,
}
use beckn_data_commons.Grant.Types.{
  GrantScopeKind, full, sample, subset, GrantScope, Grantee, Provider, ResourceRef,
  AccessGrantClaims, SignedAccessGrant, IssueGrantRequest,
}

unfoldable pub scope_kind_of : String → Option GrantScopeKind
scope_kind_of s =
    if s == "full"
    then some full
    else if s == "sample"
    then some sample
    else if s == "subset"
    then some subset
    else none

unfoldable pub scope_kind : Json → Option GrantScopeKind
unfolding scope_kind_of
scope_kind (str s) = scope_kind_of s
scope_kind _ = none

-- the refinement: a `subset` names its fields
abbrev has_fields : Option (List String) → Bool
has_fields none = false
has_fields (some fs) = not_nil fs

abbrev pub scope_ok : GrantScope → Bool
scope_ok s = elim s.kind [ subset ↦ has_fields s.fields | _ ↦ true ]

abbrev pub scope_keys : List String
scope_keys = "kind" ∷ "fields" ∷ "maxDownloads" ∷ []

-- `z.array(z.string()).min(1)`
abbrev pub some_strings : Json → Option (List String)
some_strings v = such_that not_nil (strings v)

unfoldable pub grant_scope : Json → Option GrantScope
unfolding strict get
grant_scope v = do
  strict scope_keys v
  kind ← scope_kind (get "kind" v)
  fields ← optional some_strings (get "fields" v)
  cap ← optional positive (get "maxDownloads" v)
  such_that scope_ok (some (record { kind = kind; fields = fields; max_downloads = cap }))

unfoldable pub parse_grantee : Json → Option Grantee
unfolding strict get
parse_grantee v = do
  strict ("id" ∷ "publicKey" ∷ []) v
  id ← string_min_1 (get "id" v)
  key ← optional string (get "publicKey" v)
  some (record { id = id; public_key = key })

abbrev literal : String → Json → Option (Unit {0})
literal s v = do t ← string v; guard (t == s)

-- `/^[0-9a-f]{128}$/`
abbrev pub signature_ok : String → Bool
signature_ok s = all_chars is_lower_hex s && eqb (count s) 128

unfoldable pub parse_resource : Json → Option ResourceRef
unfolding strict get
parse_resource v = do
  strict ("resourceId" ∷ "offerId" ∷ []) v
  resource ← string_min_1 (get "resourceId" v)
  offer ← string_min_1 (get "offerId" v)
  some (record { resource_id = resource; offer_id = offer })

abbrev pub claims_keys : List String
claims_keys =
    "v" ∷ "grantId" ∷ "issuer" ∷ "issuerKeyId" ∷ "grantee" ∷ "provider" ∷ "resource" ∷ "scope"
    ∷ "licenseClass" ∷ "purpose" ∷ "transactionId" ∷ "issuedAt" ∷ "notBefore" ∷ "expiresAt"
    ∷ "revocable" ∷ "nonce" ∷ []

abbrev pub request_keys : List String
request_keys =
    "grantee" ∷ "provider" ∷ "resource" ∷ "scope" ∷ "licenseClass" ∷ "purpose" ∷ "transactionId"
    ∷ "ttlSeconds" ∷ []

-- the refinement: the validity window is not empty
abbrev pub window_ok : AccessGrantClaims → Bool
window_ok c = leb c.not_before c.expires_at

module _ (zod : Zod) where
  open zod use {uuid, url}

  unfoldable pub parse_provider : Json → Option Provider
  unfolding strict get
  parse_provider v = do
    strict ("bppId" ∷ "bppUri" ∷ []) v
    id ← string_min_1 (get "bppId" v)
    uri ← such_that url (string (get "bppUri" v))
    some (record { bpp_id = id; bpp_uri = uri })

  unfoldable pub parse_claims : Json → Option AccessGrantClaims
  unfolding strict get
  parse_claims v = do
    strict claims_keys v
    literal "bdc-grant/1" (get "v" v)
    grant_id ← such_that uuid (string (get "grantId" v))
    issuer ← string_min_1 (get "issuer" v)
    issuer_key_id ← string_min_1 (get "issuerKeyId" v)
    grantee ← parse_grantee (get "grantee" v)
    provider ← parse_provider (get "provider" v)
    resource ← parse_resource (get "resource" v)
    scope ← grant_scope (get "scope" v)
    license ← license_class (get "licenseClass" v)
    purpose ← string_min_1 (get "purpose" v)
    transaction_id ← such_that uuid (string (get "transactionId" v))
    issued_at ← natural (get "issuedAt" v)
    not_before ← natural (get "notBefore" v)
    expires_at ← natural (get "expiresAt" v)
    revocable ← boolean (get "revocable" v)
    nonce ← string_min_1 (get "nonce" v)
    such_that window_ok (
        some (record {
          grant_id = grant_id;
          issuer = issuer;
          issuer_key_id = issuer_key_id;
          grantee = grantee;
          provider = provider;
          resource = resource;
          scope = scope;
          license = license;
          purpose = purpose;
          transaction_id = transaction_id;
          issued_at = issued_at;
          not_before = not_before;
          expires_at = expires_at;
          revocable = revocable;
          nonce = nonce;
        }))

  unfoldable pub parse_signed_grant : Json → Option SignedAccessGrant
  unfolding strict get
  parse_signed_grant v = do
    strict ("claims" ∷ "alg" ∷ "signature" ∷ []) v
    claims ← parse_claims (get "claims" v)
    literal "ed25519" (get "alg" v)
    signature ← such_that signature_ok (string (get "signature" v))
    some (record { claims = claims; signature = signature })

  unfoldable pub parse_issue_request : Json → Option IssueGrantRequest
  unfolding strict get
  parse_issue_request v = do
    strict request_keys v
    grantee ← parse_grantee (get "grantee" v)
    provider ← parse_provider (get "provider" v)
    resource ← parse_resource (get "resource" v)
    scope ← grant_scope (get "scope" v)
    license ← license_class (get "licenseClass" v)
    purpose ← string_min_1 (get "purpose" v)
    transaction_id ← such_that uuid (string (get "transactionId" v))
    ttl_seconds ← optional positive (get "ttlSeconds" v)
    some (record {
      grantee = grantee;
      provider = provider;
      resource = resource;
      scope = scope;
      license = license;
      purpose = purpose;
      transaction_id = transaction_id;
      ttl_seconds = ttl_seconds;
    })
