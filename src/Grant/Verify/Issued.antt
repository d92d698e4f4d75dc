-- ===== src/Grant/Verify/Issued.antt =====
-- An issued grant verifies.
use beckn_data_commons.Base.{ℕ, String, true, Option, none, some, List, [], ◌∷◌, ◌≡◌, refl, arith}
use beckn_data_commons.Json.{wire, wire_items}
use beckn_data_commons.Canonical.{canonical_json}
use beckn_data_commons.Canonical.Wire.{canonical_json-wire}
use beckn_data_commons.Ed25519.{Noble, IsNoble, public_key_for, sign_canonical}
use beckn_data_commons.Ed25519.RoundTrip.{sign_total, verify_canonical-sign_canonical}
use beckn_data_commons.Zod.{Zod, string_items}
use beckn_data_commons.Grant.Types.{
  GrantScopeKind, AccessGrantClaims, SignedAccessGrant, claims_json, signed_json, scope_json,
  grantee_json,
}
use beckn_data_commons.Grant.Parse.{signature_ok}
use beckn_data_commons.Grant.Parse.RoundTrip.{
  ClaimsAreValid, parse_claims-claims_json, parse_signed_grant-signed_json,
}
use beckn_data_commons.Grant.Issue.{issue_grant}
use beckn_data_commons.Grant.Verify.{accepted, VerifyGrantOptions, verify_grant}
use beckn_data_commons.Grant.Verify.Authorized.{Authorizes, verify_grant-accepted_iff}

wire_items-string_items : (ss : List String) → wire_items (string_items ss) ≡ string_items ss
unfolding wire
wire_items-string_items [] = refl
wire_items-string_items (s ∷ ss) = rw (wire_items-string_items ss)

wire-grantee_json :
    (key : Option String) (id : String)
    → wire (grantee_json (record { id = id; public_key = key }))
      ≡ grantee_json (record { id = id; public_key = key })
unfolding wire
wire-grantee_json none id = refl
wire-grantee_json (some key) id = refl

wire-scope_json :
    (kind : GrantScopeKind) (fields : Option (List String)) (cap : Option ℕ)
    → wire (scope_json (record { kind = kind; fields = fields; max_downloads = cap }))
      ≡ scope_json (record { kind = kind; fields = fields; max_downloads = cap })
unfolding wire
wire-scope_json kind none none = refl
wire-scope_json kind none (some n) = refl
wire-scope_json kind (some fs) none = rw (wire_items-string_items fs)
wire-scope_json kind (some fs) (some n) = rw (wire_items-string_items fs)

-- The claims of a grant cross the wire unchanged.
wire-claims_json : (c : AccessGrantClaims) → wire (claims_json c) ≡ claims_json c
unfolding claims_json wire
wire-claims_json c = rw (
  wire-scope_json c.scope.kind c.scope.fields c.scope.max_downloads,
  wire-grantee_json c.grantee.public_key c.grantee.id,
)

module _ (noble : Noble) (laws : IsNoble noble) where
  module _ (zod : Zod) (c : AccessGrantClaims) (valid : ClaimsAreValid zod c) (key : String)
      {public : String} (derived : public_key_for noble key ≡ some public) where
    -- Claims that meet the schema are issued as they are.
    pub issue_grant_total :
        (signature : String) × (issue_grant noble zod c key
          ≡ some (record { claims = c; signature = signature }))
        × (sign_canonical noble (claims_json c) key ≡ some signature)
        × (signature_ok signature ≡ true)
    unfolding issue_grant sign_canonical
    issue_grant_total =
        let (text, e) = canonical_json-wire (claims_json c) in
        let (signature, signed, low, long) = sign_total noble laws text key derived in
        let e' : canonical_json (claims_json c) ≡ some text = rw (wire-claims_json c) at e in
        (
          signature,
          rw (parse_claims-claims_json zod c valid, e', signed),
          rw (e', signed),
          ground (arith, low, long),
        )

    -- With a key of the right form, claims that meet the schema are issued, and the issued grant
    -- is accepted, with the same claims, by any verifier that holds the public key and makes a
    -- request that the claims authorize.
    pub verify_grant-issue_grant :
        (opts : VerifyGrantOptions)
        → opts.issuer_public_key_hex ≡ public
        → Authorizes c opts
        → (g : SignedAccessGrant) × (issue_grant noble zod c key ≡ some g)
          × (verify_grant noble zod (signed_json g) opts ≡ accepted c)
    verify_grant-issue_grant opts same a =
        let (signature, issued, signed, form) = issue_grant_total in
        let g : SignedAccessGrant = record { claims = c; signature = signature } in
        (
          g,
          issued,
          (verify_grant-accepted_iff noble zod (signed_json g) opts c).1 (record {
            signed = g;
            form = parse_signed_grant-signed_json zod g valid form;
            claims = refl;
            signature =
                rw same
                  (verify_canonical-sign_canonical noble laws (claims_json c) key signed derived);
            authorizes = a;
          }),
        )
