-- ===== src/AccessManager/Service/Issues.antt =====
-- What `issue` returns and saves.
use beckn_data_commons.Base.{◌+◌, true, or_else, ℕ, String, ◌≡◌, refl, arith, some}
use beckn_data_commons.Ed25519.{Noble, IsNoble, public_key_for}
use beckn_data_commons.Zod.{Zod, not_empty}
use beckn_data_commons.Grant.Types.{
  AccessGrantClaims, SignedAccessGrant, IssueGrantRequest, signed_json,
}
use beckn_data_commons.Grant.Parse.RoundTrip.{IsTrue, ClaimsAreValid, parse_claims-claims_json}
use beckn_data_commons.Grant.Parse.Sound.{RequestIsValid}
use beckn_data_commons.Grant.Verify.{accepted, VerifyGrantOptions, verify_grant}
use beckn_data_commons.Grant.Verify.Authorized.{Authorizes}
use beckn_data_commons.Grant.Verify.Issued.{verify_grant-issue_grant}
use beckn_data_commons.AccessManager.Types.{issued, GrantRecord, GrantStore}
use beckn_data_commons.AccessManager.Service.{GrantServiceDeps, claims_for, record_of, issue}

-- What `issue` takes from its configuration and from `randomUUID()`.
pub record IdsAreValid (zod : Zod) (deps : GrantServiceDeps) (id token : String) : Type 0 where
  pub grant_id : IsTrue (zod.uuid id)
  pub issuer : IsTrue (not_empty deps.am_id)
  pub issuer_key_id : IsTrue (not_empty deps.issuer_key_id)
  pub nonce : IsTrue (not_empty token)

claims_for-ClaimsAreValid :
    (zod : Zod) (deps : GrantServiceDeps) (req : IssueGrantRequest) (now_seconds : ℕ)
    (grant_id nonce : String)
    → RequestIsValid zod req
    → IdsAreValid zod deps grant_id nonce
    → ClaimsAreValid zod (claims_for deps req now_seconds grant_id nonce)
unfolding claims_for
claims_for-ClaimsAreValid zod deps req now_seconds grant_id nonce r ids = record {
  grant_id = ids.grant_id;
  issuer = ids.issuer;
  issuer_key_id = ids.issuer_key_id;
  grantee = r.grantee;
  bpp_id = r.bpp_id;
  bpp_uri = r.bpp_uri;
  resource_id = r.resource_id;
  offer_id = r.offer_id;
  scope = r.scope;
  purpose = r.purpose;
  transaction_id = r.transaction_id;
  window = ground arith;
  nonce = ids.nonce;
}

-- The claims say who asked for what, and who issued it, from when and until when.
pub record ClaimsSay (deps : GrantServiceDeps) (req : IssueGrantRequest) (now_seconds : ℕ)
    (id token : String) (c : AccessGrantClaims) : Type 0 where
  pub grant_id : c.grant_id ≡ id
  pub issuer : c.issuer ≡ deps.am_id
  pub issuer_key_id : c.issuer_key_id ≡ deps.issuer_key_id
  pub grantee : c.grantee ≡ req.grantee
  pub provider : c.provider ≡ req.provider
  pub resource : c.resource ≡ req.resource
  pub scope : c.scope ≡ req.scope
  pub license : c.license ≡ req.license
  pub purpose : c.purpose ≡ req.purpose
  pub transaction_id : c.transaction_id ≡ req.transaction_id
  pub issued_at : c.issued_at ≡ now_seconds
  pub not_before : c.not_before ≡ now_seconds
  pub expires_at : c.expires_at ≡ now_seconds + or_else req.ttl_seconds deps.ttl_seconds
  pub revocable : c.revocable ≡ true
  pub nonce : c.nonce ≡ token

-- The record of the ledger that stands for a grant of a request.
pub record RecordSays (deps : GrantServiceDeps) (req : IssueGrantRequest) (now_seconds : ℕ)
    (id : String) (g : SignedAccessGrant) (r : GrantRecord) : Type 0 where
  pub grant_id : r.grant_id ≡ id
  pub grantee_id : r.grantee_id ≡ req.grantee.id
  pub bpp_id : r.bpp_id ≡ req.provider.bpp_id
  pub resource_id : r.resource_id ≡ req.resource.resource_id
  pub offer_id : r.offer_id ≡ req.resource.offer_id
  pub scope : r.scope ≡ req.scope
  pub license : r.license ≡ req.license
  pub purpose : r.purpose ≡ req.purpose
  pub transaction_id : r.transaction_id ≡ req.transaction_id
  pub issued_at : r.issued_at ≡ now_seconds
  pub expires_at : r.expires_at ≡ now_seconds + or_else req.ttl_seconds deps.ttl_seconds
  pub status : r.status ≡ issued
  pub signed_grant : r.signed_grant ≡ g

-- For a request that meets its schema, with the configuration and the random identifiers in order,
-- `issue` succeeds: it returns a signed grant, saves one record with the same claims, the status
-- `ISSUED` and that grant, and any verifier that holds the public key of the Access Manager accepts
-- the grant for a request that the claims authorize.
pub issue-saved :
    (noble : Noble) (zod : Zod) {S : Type 0} (store : GrantStore S) (deps : GrantServiceDeps)
    (req : IssueGrantRequest) (now_seconds : ℕ) (grant_id nonce : String) (s : S)
    (opts : VerifyGrantOptions)
    → IsNoble noble
    → public_key_for noble deps.private_key ≡ some opts.issuer_public_key_hex
    → RequestIsValid zod req
    → IdsAreValid zod deps grant_id nonce
    → Authorizes (claims_for deps req now_seconds grant_id nonce) opts
    → (g : SignedAccessGrant) × (issue noble zod store deps req now_seconds grant_id nonce s
        ≡ some (g, store.save (record_of (claims_for deps req now_seconds grant_id nonce) g) s))
      × (verify_grant noble zod (signed_json g) opts
          ≡ accepted (claims_for deps req now_seconds grant_id nonce))
unfolding issue
issue-saved noble zod store deps req now_seconds grant_id nonce s opts laws key r ids a =
    let valid = claims_for-ClaimsAreValid zod deps req now_seconds grant_id nonce r ids in
    let (g, made, good) =
      verify_grant-issue_grant noble laws zod _ valid deps.private_key key opts refl a in
    (g, rw (parse_claims-claims_json zod _ valid, issue) (rw (made, issue) refl), good)

says :
    (deps : GrantServiceDeps) (req : IssueGrantRequest) (now_seconds : ℕ) (grant_id nonce : String)
    → ClaimsSay deps req now_seconds grant_id nonce (claims_for deps req now_seconds grant_id nonce)
unfolding claims_for
says deps req now_seconds grant_id nonce = record {
  grant_id = refl;
  issuer = refl;
  issuer_key_id = refl;
  grantee = refl;
  provider = refl;
  resource = refl;
  scope = refl;
  license = refl;
  purpose = refl;
  transaction_id = refl;
  issued_at = refl;
  not_before = refl;
  expires_at = refl;
  revocable = refl;
  nonce = refl;
}

record_says :
    (deps : GrantServiceDeps) (req : IssueGrantRequest) (now_seconds : ℕ) (grant_id nonce : String)
    (g : SignedAccessGrant)
    → RecordSays deps req now_seconds grant_id g
        (record_of (claims_for deps req now_seconds grant_id nonce) g)
unfolding claims_for record_of
record_says deps req now_seconds grant_id nonce g = record {
  grant_id = refl;
  grantee_id = refl;
  bpp_id = refl;
  resource_id = refl;
  offer_id = refl;
  scope = refl;
  license = refl;
  purpose = refl;
  transaction_id = refl;
  issued_at = refl;
  expires_at = refl;
  status = refl;
  signed_grant = refl;
}

-- For a request that meets its schema, when the random grant id is a UUID and the names of the
-- configuration and the nonce are not empty, and the configured private key has the public key that a
-- verifier holds, `issue` returns a signed grant and saves one record: the record has the new id, the
-- grantee, provider, resource, offer, scope, license, purpose and transaction of the request, the times
-- of its lifetime, the status `ISSUED` and that grant. The verifier accepts the grant, for a request that
-- its claims authorize, with claims that say the same with the issuer, its key and the nonce.
pub issue-verify_grant :
    (noble : Noble) (zod : Zod) {S : Type 0} (store : GrantStore S) (deps : GrantServiceDeps)
    (req : IssueGrantRequest) (now_seconds : ℕ) (grant_id nonce : String) (s : S)
    (opts : VerifyGrantOptions)
    → IsNoble noble
    → public_key_for noble deps.private_key ≡ some opts.issuer_public_key_hex
    → RequestIsValid zod req
    → IdsAreValid zod deps grant_id nonce
    → Authorizes (claims_for deps req now_seconds grant_id nonce) opts
    → (g : SignedAccessGrant) × (r : GrantRecord) × (c : AccessGrantClaims) × (issue noble zod store
          deps req now_seconds grant_id nonce s
        ≡ some (g, store.save r s))
      × RecordSays deps req now_seconds grant_id g r
      × ClaimsSay deps req now_seconds grant_id nonce c
      × (verify_grant noble zod (signed_json g) opts ≡ accepted c)
issue-verify_grant noble zod store deps req now_seconds grant_id nonce s opts laws key r ids a =
    let (g, made, good) =
      issue-saved noble zod store deps req now_seconds grant_id nonce s opts laws key r ids a in
    (
      g,
      record_of (claims_for deps req now_seconds grant_id nonce) g,
      claims_for deps req now_seconds grant_id nonce,
      made,
      record_says deps req now_seconds grant_id nonce g,
      says deps req now_seconds grant_id nonce,
      good,
    )
