-- ===== src/Grant/Parse/RoundTrip.antt =====
-- The schemas read back what grants are written as.
use beckn_data_commons.Base.{ℕ, String, Bool, true, Option, none, some, List, ◌≡◌, refl, arith, ltb}
use beckn_data_commons.Json.{str}
use beckn_data_commons.Domain.{
  LicenseClass, permissive, research_only, no_redistribution, license_text, license_class,
}
use beckn_data_commons.Zod.{Zod, strings_of-string_items, not_nil, not_empty}
use beckn_data_commons.Grant.Types.{
  GrantScopeKind, full, sample, subset, GrantScope, Grantee, Provider, ResourceRef,
  AccessGrantClaims, SignedAccessGrant, grantee_json, provider_json, resource_json, scope_json,
  kind_text, claims_json, signed_json,
}
use beckn_data_commons.Grant.Parse.{
  scope_kind, grant_scope, scope_ok, window_ok, parse_grantee, parse_provider, parse_resource,
  parse_claims, parse_signed_grant, signature_ok,
}

abbrev pub IsTrue : Bool → Type 0
IsTrue b = b ≡ true

abbrev pub fields_ok : Option (List String) → Bool
fields_ok none = true
fields_ok (some fs) = not_nil fs

abbrev pub cap_ok : Option ℕ → Bool
cap_ok none = true
cap_ok (some n) = ltb 0 n

-- What the schema asks of a scope.
pub record ScopeIsValid (s : GrantScope) : Type 0 where
  pub fields : IsTrue (fields_ok s.fields)
  pub cap : IsTrue (cap_ok s.max_downloads)
  pub named : IsTrue (scope_ok s)

scope_kind-kind_text : (k : GrantScopeKind) → scope_kind (str (kind_text k)) ≡ some k
unfolding scope_kind
scope_kind-kind_text full = refl
scope_kind-kind_text sample = refl
scope_kind-kind_text subset = refl

module _ (kind : GrantScopeKind) where
  abbrev scope_of : Option (List String) → Option ℕ → GrantScope
  scope_of fields cap = record { kind = kind; fields = fields; max_downloads = cap }

  -- the scope by its optional properties
  scope_parts :
      (fields : Option (List String)) (cap : Option ℕ)
      → IsTrue (fields_ok fields)
      → IsTrue (cap_ok cap)
      → IsTrue (scope_ok (scope_of fields cap))
      → grant_scope (scope_json (scope_of fields cap)) ≡ some (scope_of fields cap)
  unfolding grant_scope
  scope_parts none none h k n = rw (scope_kind-kind_text, n)
  scope_parts none (some c) h k n = rw (scope_kind-kind_text, k, n)
  scope_parts (some fs) none h k n = rw (scope_kind-kind_text, strings_of-string_items, h, n)
  scope_parts (some fs) (some c) h k n = rw (scope_kind-kind_text, strings_of-string_items, h, k, n)

pub grant_scope-scope_json : (s : GrantScope) → ScopeIsValid s → grant_scope (scope_json s) ≡ some s
grant_scope-scope_json s h = scope_parts s.kind s.fields s.max_downloads h.fields h.cap h.named

pub parse_grantee-grantee_json :
    (g : Grantee) → IsTrue (not_empty g.id) → parse_grantee (grantee_json g) ≡ some g
unfolding parse_grantee
parse_grantee-grantee_json g h = ground arith

pub parse_resource-resource_json :
    (r : ResourceRef)
    → IsTrue (not_empty r.resource_id)
    → IsTrue (not_empty r.offer_id)
    → parse_resource (resource_json r) ≡ some r
unfolding parse_resource
parse_resource-resource_json r h k = rw (h, k)

pub license_class-license_text : (l : LicenseClass) → license_class (str (license_text l)) ≡ some l
unfolding license_class
license_class-license_text permissive = refl
license_class-license_text research_only = refl
license_class-license_text no_redistribution = refl

module _ (zod : Zod) where
  open zod use {uuid, url}

  pub parse_provider-provider_json :
      (p : Provider)
      → IsTrue (not_empty p.bpp_id)
      → IsTrue (url p.bpp_uri)
      → parse_provider zod (provider_json p) ≡ some p
  unfolding parse_provider
  parse_provider-provider_json p h k = rw (h, k)

  -- What the schema of the claims asks.
  pub record ClaimsAreValid (c : AccessGrantClaims) : Type 0 where
    pub grant_id : IsTrue (uuid c.grant_id)
    pub issuer : IsTrue (not_empty c.issuer)
    pub issuer_key_id : IsTrue (not_empty c.issuer_key_id)
    pub grantee : IsTrue (not_empty c.grantee.id)
    pub bpp_id : IsTrue (not_empty c.provider.bpp_id)
    pub bpp_uri : IsTrue (url c.provider.bpp_uri)
    pub resource_id : IsTrue (not_empty c.resource.resource_id)
    pub offer_id : IsTrue (not_empty c.resource.offer_id)
    pub scope : ScopeIsValid c.scope
    pub purpose : IsTrue (not_empty c.purpose)
    pub transaction_id : IsTrue (uuid c.transaction_id)
    pub window : IsTrue (window_ok c)
    pub nonce : IsTrue (not_empty c.nonce)

  -- Claims that meet the schema are read back as they were written.
  pub parse_claims-claims_json :
      (c : AccessGrantClaims) → ClaimsAreValid c → parse_claims zod (claims_json c) ≡ some c
  unfolding parse_claims claims_json
  parse_claims-claims_json c h = rw (
    h.grant_id,
    h.issuer,
    h.issuer_key_id,
    parse_grantee-grantee_json c.grantee h.grantee,
    parse_provider-provider_json c.provider h.bpp_id h.bpp_uri,
    parse_resource-resource_json c.resource h.resource_id h.offer_id,
    grant_scope-scope_json c.scope h.scope,
    license_class-license_text c.license,
    h.purpose,
    h.transaction_id,
    h.nonce,
    h.window,
  )

  -- So is a signed grant whose signature has the wire's form.
  pub parse_signed_grant-signed_json :
      (g : SignedAccessGrant)
      → ClaimsAreValid g.claims
      → IsTrue (signature_ok g.signature)
      → parse_signed_grant zod (signed_json g) ≡ some g
  unfolding parse_signed_grant signed_json
  parse_signed_grant-signed_json g h k = rw (parse_claims-claims_json g.claims h, k)
