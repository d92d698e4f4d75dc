-- ===== src/Grant/Verify/Authorized.antt =====
-- `verifyGrant` accepts exactly the grants that authorize the request.
use beckn_data_commons.Base.{
  ℕ, ◌+◌, ◌≤◌, String, true, false, Option, none, some, List, [], ◌∷◌, ◌≡◌, ◌≢◌, ◌⊎◌, ◌↔◌, inl, inr,
  refl, arith, eq_iff, contains, All, or_else, Option-cases,
}
use beckn_data_commons.Json.{Json}
use beckn_data_commons.Ed25519.{Noble, verify_canonical}
use beckn_data_commons.Zod.{Zod, not_nil}
use beckn_data_commons.Grant.Types.{subset, AccessGrantClaims, SignedAccessGrant, claims_json}
use beckn_data_commons.Grant.Parse.{parse_signed_grant}
use beckn_data_commons.Grant.Verify.{
  accepted, Requested, VerifyGrantOptions, overreach, check_scope, check_requested, check_claims,
  check_signature, verify_grant, differs,
}

-- An absent or empty wish is met by anything.
abbrev pub Meets : String → Option String → Type 0
Meets actual none = Unit
Meets actual (some wanted) = (wanted ≡ "") ⊎ (actual ≡ wanted)

abbrev Covers : Option (List String) → List String → Type 0
Covers allowed fields = All (λ f. contains f (or_else allowed []) ≡ true) fields

-- Any other scope than `subset` covers all fields.
abbrev pub ScopeCovers : AccessGrantClaims → Option (List String) → Type 0
ScopeCovers c none = Unit
ScopeCovers c (some fields) = (c.scope.kind ≢ subset) ⊎ Covers c.scope.fields fields

abbrev pub RequestIsCovered : AccessGrantClaims → Option Requested → Type 0
RequestIsCovered c none = Unit
RequestIsCovered c (some r) =
    (c.resource.resource_id ≡ r.resource_id)
    × Meets c.resource.offer_id r.offer_id
    × ScopeCovers c r.fields

abbrev pub skew_of : VerifyGrantOptions → ℕ
skew_of opts = or_else opts.clock_skew_seconds 30

-- What the claims of a grant must say.
pub record Authorizes (c : AccessGrantClaims) (opts : VerifyGrantOptions) : Type 0 where
  pub begun : c.not_before ≤ opts.now_seconds + skew_of opts
  pub not_over : opts.now_seconds ≤ c.expires_at + skew_of opts
  pub provider : Meets c.provider.bpp_id opts.expected_bpp_id
  pub request : RequestIsCovered c opts.requested

overreach-nil_iff :
    (allowed fields : List String)
    → (not_nil (overreach allowed fields) ≡ false) ↔ All (λ f. contains f allowed ≡ true) fields
unfolding overreach
overreach-nil_iff allowed [] = (λ h. tt, λ h. refl)
overreach-nil_iff allowed (f ∷ fs) = let (to, from) = overreach-nil_iff allowed fs in ground arith

check_scope-accepted_iff :
    (c d : AccessGrantClaims) (fields : Option (List String))
    → (check_scope c fields ≡ accepted d) ↔ ((c ≡ d) × ScopeCovers c fields)
unfolding check_scope
check_scope-accepted_iff c d none = ground arith
check_scope-accepted_iff c d (some fs) =
    ground (arith, overreach-nil_iff (or_else c.scope.fields []) fs)

differs_iff :
    (actual : String) (wanted : Option String)
    → (differs actual wanted ≡ false) ↔ Meets actual wanted
differs_iff actual none = (λ h. tt, λ h. refl)
differs_iff actual (some w) = ground (arith, eq_iff w "", eq_iff actual w)

check_requested-accepted_iff :
    (c d : AccessGrantClaims) (r : Option Requested)
    → (check_requested c r ≡ accepted d) ↔ ((c ≡ d) × RequestIsCovered c r)
unfolding check_requested
check_requested-accepted_iff c d none = ground arith
check_requested-accepted_iff c d (some r) = ground (
  arith,
  eq_iff c.resource.resource_id r.resource_id,
  differs_iff c.resource.offer_id r.offer_id,
  check_scope-accepted_iff c d r.fields,
)

module _ (c d : AccessGrantClaims) (opts : VerifyGrantOptions) where
  check_claims_sound : check_claims opts c ≡ accepted d → (c ≡ d) × Authorizes c opts
  unfolding check_claims
  check_claims_sound e =
      let (same, request) = (check_requested-accepted_iff c d opts.requested).0 (ground arith) in
      (
        same,
        record {
          begun = ground arith;
          not_over = ground arith;
          provider = (differs_iff c.provider.bpp_id opts.expected_bpp_id).0 (ground arith);
          request = request;
        },
      )

pub check_claims_complete :
    (c : AccessGrantClaims) (opts : VerifyGrantOptions)
    → Authorizes c opts
    → check_claims opts c ≡ accepted c
unfolding check_claims
check_claims_complete c opts a = ground (
  arith,
  (check_requested-accepted_iff c c opts.requested).1 (refl, a.request),
  (differs_iff c.provider.bpp_id opts.expected_bpp_id).1 a.provider,
)

-- A presented value is an authorized grant with the claims `c`: it has the form of a signed grant
-- with these claims, the signature verifies under the issuer's key over their canonical text, and
-- the claims authorize the request.
pub record IsAuthorized (noble : Noble) (zod : Zod) (v : Json) (opts : VerifyGrantOptions)
    (c : AccessGrantClaims) : Type 0 where
  pub signed : SignedAccessGrant
  pub form : parse_signed_grant zod v ≡ some signed
  pub claims : signed.claims ≡ c
  pub signature :
      verify_canonical noble signed.signature (claims_json c) opts.issuer_public_key_hex ≡ true
  pub authorizes : Authorizes c opts

-- `verifyGrant` accepts a presented value, with the claims `c`, exactly when the value is an
-- authorized grant with these claims.
pub verify_grant-accepted_iff :
    (noble : Noble) (zod : Zod) (v : Json) (opts : VerifyGrantOptions) (c : AccessGrantClaims)
    → (verify_grant noble zod v opts ≡ accepted c) ↔ IsAuthorized noble zod v opts c
unfolding verify_grant check_signature
verify_grant-accepted_iff noble zod v opts c = (to, from)
  where
    read :
        (g : SignedAccessGrant)
        → parse_signed_grant zod v ≡ some g
        → check_signature noble zod opts g ≡ accepted c
        → IsAuthorized noble zod v opts c
    read g good e =
        let (same, a) = check_claims_sound g.claims c opts (ground arith) in
        record {
          signed = g;
          form = good;
          claims = same;
          signature = rw (← same) (ground arith);
          authorizes = rw (← same) a;
        }

    to : verify_grant noble zod v opts ≡ accepted c → IsAuthorized noble zod v opts c
    to e = elim (Option-cases (parse_signed_grant zod v)) [
      | inl bad ↦ cc (rw (bad, verify_grant) at e)
      | inr (g, good) ↦ read g good (rw (good, verify_grant) at e)
    ]

    from : IsAuthorized noble zod v opts c → verify_grant noble zod v opts ≡ accepted c
    from a =
        rw (a.form, verify_grant)
          (ground (arith, a.claims, a.signature, check_claims_complete c opts a.authorizes))
