-- ===== src/Grant/Types/Wire.antt =====
-- A grant and a request for one cross the wire as they are.
use beckn_data_commons.Base.{ℕ, String, ◌≡◌, refl, ap, Option, none, some, List, [], ◌∷◌}
use beckn_data_commons.Json.{Fields, end, wire, wire_items, wire_fields, cons, str}
use beckn_data_commons.Zod.{field_if, string_items}
use beckn_data_commons.Grant.Types.{
  AccessGrantClaims, SignedAccessGrant, claims_json, signed_json, strings_json, nat_json,
}

pub wire_items-string_items : (ss : List String) → wire_items (string_items ss) ≡ string_items ss
unfolding wire
wire_items-string_items [] = refl
wire_items-string_items (s ∷ ss) = ap (cons (str s)) (wire_items-string_items ss)

pub wire_fields-public_key :
    (key : Option String)
    → wire_fields (field_if "publicKey" str key end) ≡ field_if "publicKey" str key end
unfolding wire
wire_fields-public_key none = refl
wire_fields-public_key (some key) = refl

-- what is optional in a scope
abbrev pub scope_rest : Option (List String) → Option ℕ → Fields
scope_rest fields cap =
    field_if "fields" strings_json fields (field_if "maxDownloads" nat_json cap end)

pub wire_fields-scope_rest :
    (fields : Option (List String)) (cap : Option ℕ)
    → wire_fields (scope_rest fields cap) ≡ scope_rest fields cap
unfolding wire
wire_fields-scope_rest none none = refl
wire_fields-scope_rest none (some cap) = refl
wire_fields-scope_rest (some fields) none = rw (wire_items-string_items fields) refl
wire_fields-scope_rest (some fields) (some cap) = rw (wire_items-string_items fields) refl

wire-claims_json : (c : AccessGrantClaims) → wire (claims_json c) ≡ claims_json c
unfolding wire claims_json
wire-claims_json c =
    rw
      (
        wire_fields-public_key c.grantee.public_key,
        wire_fields-scope_rest c.scope.fields c.scope.max_downloads,
      )
      refl

pub wire-signed_json : (g : SignedAccessGrant) → wire (signed_json g) ≡ signed_json g
unfolding wire signed_json claims_json
wire-signed_json g = rw (wire-claims_json g.claims) refl
