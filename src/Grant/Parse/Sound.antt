-- ===== src/Grant/Parse/Sound.antt =====
-- What the schemas accept meets their conditions.
use beckn_data_commons.Base.{
  ℕ, String, true, Option, some, List, ◌≡◌, arith, leb, such_that, Ensures, Ensures-any, Ensures-if,
  Ensures-some, Ensures-bind, Ensures-such_that, Option-cases, inl, inr, >>=-eq-some,
}
use beckn_data_commons.Json.{Json, get}
use beckn_data_commons.Domain.{license_class}
use beckn_data_commons.Zod.{
  Zod, strings_of, optional, positive, not_empty, string, string_min_1, strict, natural, boolean,
}
use beckn_data_commons.Grant.Types.{GrantScope, AccessGrantClaims, IssueGrantRequest}
use beckn_data_commons.Grant.Parse.{
  scope_kind, grant_scope, scope_keys, claims_keys, request_keys, some_strings, parse_grantee,
  parse_provider, parse_resource, parse_claims, parse_issue_request, literal,
}
use beckn_data_commons.Grant.Parse.RoundTrip.{
  IsTrue, ScopeIsValid, ClaimsAreValid, fields_ok, cap_ok,
}

string_min_1-not_empty : (v : Json) → Ensures (λ s. not_empty s ≡ true) (string_min_1 v)
string_min_1-not_empty v = Ensures-such_that not_empty (string v)

fields_ok-optional :
    (v : Json) {o : Option (List String)} → optional some_strings v ≡ some o → IsTrue (fields_ok o)
fields_ok-optional (Json.arr vs) e = elim (Option-cases (strings_of vs)) [
  | inl bad ↦ cc
  | inr (fs, good) ↦ ground arith
]
fields_ok-optional _ e = ground arith

cap_ok-optional : (v : Json) {o : Option ℕ} → optional positive v ≡ some o → IsTrue (cap_ok o)
cap_ok-optional v e = ground arith

grant_scope-valid : (v : Json) {s : GrantScope} → grant_scope v ≡ some s → ScopeIsValid s
unfolding grant_scope
grant_scope-valid v e =
    let (u, keys, e₁) = >>=-eq-some (strict scope_keys v) _ e in
    let (kind, k, e₂) = >>=-eq-some (scope_kind (get "kind" v)) _ e₁ in
    let (fields, f, e₃) = >>=-eq-some (optional some_strings (get "fields" v)) _ e₂ in
    let (cap, c, e₄) = >>=-eq-some (optional positive (get "maxDownloads" v)) _ e₃ in
    ground
      (arith, e₄, fields_ok-optional (get "fields" v) f, cap_ok-optional (get "maxDownloads" v) c)

pub grant_scope-ScopeIsValid : (v : Json) → Ensures ScopeIsValid (grant_scope v)
grant_scope-ScopeIsValid v = record { at = λ s e. grant_scope-valid v e }

parse_grantee_sound : (v : Json) → Ensures (λ g. IsTrue (not_empty g.id)) (parse_grantee v)
unfolding parse_grantee
parse_grantee_sound v = record { at = λ g e. ground arith }

parse_resource_sound :
    (v : Json)
    → Ensures
        (λ r. IsTrue (not_empty r.resource_id) × IsTrue (not_empty r.offer_id))
        (parse_resource v)
unfolding parse_resource
parse_resource_sound v = record { at = λ r e. ground arith }

module _ (zod : Zod) where
  open zod use {uuid, url}

  parse_provider_sound :
      (v : Json)
      → Ensures (λ p. IsTrue (not_empty p.bpp_id) × IsTrue (url p.bpp_uri)) (parse_provider zod v)
  unfolding parse_provider
  parse_provider_sound v = record { at = λ p e. ground arith }

  -- Claims that the schema accepts meet its conditions.
  pub parse_claims-ClaimsAreValid : (v : Json) → Ensures (ClaimsAreValid zod) (parse_claims zod v)
  unfolding parse_claims
  parse_claims-ClaimsAreValid v = Ensures-bind (strict claims_keys v) _ (Ensures-any _) λ _ _.
      Ensures-bind (literal "bdc-grant/1" (get "v" v)) _ (Ensures-any _) λ _ _.
        Ensures-bind (such_that uuid (string (get "grantId" v))) _ (Ensures-such_that uuid _)
          λ grant_id h1.
            Ensures-bind (string_min_1 (get "issuer" v)) _ (string_min_1-not_empty (get "issuer" v))
              λ issuer h2.
                Ensures-bind (string_min_1 (get "issuerKeyId" v)) _
                  (string_min_1-not_empty (get "issuerKeyId" v))
                  λ issuer_key_id h3.
                    Ensures-bind (parse_grantee (get "grantee" v)) _ (parse_grantee_sound _)
                      λ grantee h4.
                        Ensures-bind (parse_provider zod (get "provider" v)) _
                          (parse_provider_sound _)
                          λ provider h5.
                            Ensures-bind (parse_resource (get "resource" v)) _
                              (parse_resource_sound _)
                              λ resource h6.
                                Ensures-bind (grant_scope (get "scope" v)) _
                                  (grant_scope-ScopeIsValid _)
                                  λ scope h7.
                                    Ensures-bind (license_class (get "licenseClass" v)) _
                                      (Ensures-any _)
                                      λ license _.
                                        Ensures-bind (string_min_1 (get "purpose" v)) _
                                          (string_min_1-not_empty (get "purpose" v))
                                          λ purpose h8.
                                            Ensures-bind
                                              (such_that uuid (string (get "transactionId" v))) _
                                              (Ensures-such_that uuid _)
                                              λ transaction_id h9.
                                                Ensures-bind (natural (get "issuedAt" v)) _
                                                  (Ensures-any _)
                                                  λ issued_at _.
                                                    Ensures-bind (natural (get "notBefore" v)) _
                                                      (Ensures-any _)
                                                      λ not_before _.
                                                        Ensures-bind (natural (get "expiresAt" v)) _
                                                          (Ensures-any _)
                                                          λ expires_at _.
                                                            Ensures-bind
                                                            (boolean (get "revocable" v)) _
                                                            (Ensures-any _)
                                                            λ revocable _.
                                                            Ensures-bind
                                                            (string_min_1 (get "nonce" v)) _
                                                            (string_min_1-not_empty (get "nonce" v))
                                                            λ nonce h10.
                                                            Ensures-if (ClaimsAreValid zod)
                                                            (leb not_before expires_at) _
                                                            λ h11. record {
                                                            grant_id = h1;
                                                            issuer = h2;
                                                            issuer_key_id = h3;
                                                            grantee = h4;
                                                            bpp_id = h5.0;
                                                            bpp_uri = h5.1;
                                                            resource_id = h6.0;
                                                            offer_id = h6.1;
                                                            scope = h7;
                                                            purpose = h8;
                                                            transaction_id = h9;
                                                            window = h11;
                                                            nonce = h10;
                                                            }

  -- What the schema of a request for a grant asks.
  pub record RequestIsValid (r : IssueGrantRequest) : Type 0 where
    pub grantee : IsTrue (not_empty r.grantee.id)
    pub bpp_id : IsTrue (not_empty r.provider.bpp_id)
    pub bpp_uri : IsTrue (url r.provider.bpp_uri)
    pub resource_id : IsTrue (not_empty r.resource.resource_id)
    pub offer_id : IsTrue (not_empty r.resource.offer_id)
    pub scope : ScopeIsValid r.scope
    pub purpose : IsTrue (not_empty r.purpose)
    pub transaction_id : IsTrue (uuid r.transaction_id)

  -- A request that the schema accepts meets its conditions.
  pub parse_issue_request-RequestIsValid :
      (v : Json) → Ensures RequestIsValid (parse_issue_request zod v)
  unfolding parse_issue_request
  parse_issue_request-RequestIsValid v =
      Ensures-bind (strict request_keys v) _ (Ensures-any _) λ _ _.
        Ensures-bind (parse_grantee (get "grantee" v)) _ (parse_grantee_sound _) λ grantee h1.
          Ensures-bind (parse_provider zod (get "provider" v)) _ (parse_provider_sound _)
            λ provider h2.
              Ensures-bind (parse_resource (get "resource" v)) _ (parse_resource_sound _)
                λ resource h3.
                  Ensures-bind (grant_scope (get "scope" v)) _ (grant_scope-ScopeIsValid _)
                    λ scope h4.
                      Ensures-bind (license_class (get "licenseClass" v)) _ (Ensures-any _)
                        λ license _.
                          Ensures-bind (string_min_1 (get "purpose" v)) _
                            (string_min_1-not_empty (get "purpose" v))
                            λ purpose h5.
                              Ensures-bind (such_that uuid (string (get "transactionId" v))) _
                                (Ensures-such_that uuid _)
                                λ transaction_id h6.
                                  Ensures-bind (optional positive (get "ttlSeconds" v)) _
                                    (Ensures-any _)
                                    λ ttl _. Ensures-some RequestIsValid _ (record {
                                      grantee = h1;
                                      bpp_id = h2.0;
                                      bpp_uri = h2.1;
                                      resource_id = h3.0;
                                      offer_id = h3.1;
                                      scope = h4;
                                      purpose = h5;
                                      transaction_id = h6;
                                    })

-- Claims that the schema reads from a value meet its conditions: the texts that must not be empty are
-- not, the identifiers and the address have their formats, the scope is consistent, and the window is
-- not empty.
pub parse_claims_sound :
    (zod : Zod) (v : Json) (c : AccessGrantClaims)
    → parse_claims zod v ≡ some c
    → ClaimsAreValid zod c
parse_claims_sound zod v c e = (parse_claims-ClaimsAreValid zod v).at c e
