-- ===== src/Grant/Types/ReadBack.antt =====
-- A grant is read from its text as it is.
use beckn_data_commons.Base.{ℕ, String, ◌≡◌, refl, ap, Option, none, some, List, [], ◌∷◌}
use beckn_data_commons.Js.{Number}
use beckn_data_commons.Json.{Json, field, end, cons, str}
use beckn_data_commons.Json.Lexer.RoundTrip.{NumbersRead, ItemsRead, FieldsRead}
use beckn_data_commons.Json.Parser.RoundTrip.{read_back, read_back_items, read_back_fields}
use beckn_data_commons.Zod.{field_if, string_items}
use beckn_data_commons.Grant.Types.{
  Grantee, GrantScope, SignedAccessGrant, claims_json, signed_json, nat_json, scope_json,
  grantee_json,
}
use beckn_data_commons.Grant.Types.Wire.{scope_rest}

read_back-string_items : (ss : List String) → read_back_items (string_items ss) ≡ string_items ss
unfolding read_back
read_back-string_items [] = refl
read_back-string_items (s ∷ ss) = ap (cons (str s)) (read_back-string_items ss)

ItemsRead-string_items :
    (other : String → Number) (ss : List String) → ItemsRead other (string_items ss)
unfolding NumbersRead
ItemsRead-string_items other [] = tt
ItemsRead-string_items other (s ∷ ss) = (tt, ItemsRead-string_items other ss)

read_back-grantee_fields :
    (i : String) (key : Option String)
    → read_back_fields (field "id" (str i) end) (field_if "publicKey" str key end)
      ≡ field "id" (str i) (field_if "publicKey" str key end)
unfolding read_back
read_back-grantee_fields i none = refl
read_back-grantee_fields i (some key) = refl

read_back-scope_fields :
    (k : Json) (fields : Option (List String)) (cap : Option ℕ)
    → read_back_fields (field "kind" k end) (scope_rest fields cap)
      ≡ field "kind" k (scope_rest fields cap)
unfolding read_back
read_back-scope_fields k none none = refl
read_back-scope_fields k none (some cap) = refl
read_back-scope_fields k (some fields) none = rw (read_back-string_items fields) refl
read_back-scope_fields k (some fields) (some cap) = rw (read_back-string_items fields) refl

pub read_back-signed_json : (g : SignedAccessGrant) → read_back (signed_json g) ≡ signed_json g
unfolding read_back signed_json claims_json
read_back-signed_json g =
    let grantee = g.claims.grantee in
    let scope = g.claims.scope in
    rw
      (
        read_back-grantee_fields grantee.id grantee.public_key,
        read_back-scope_fields _ scope.fields scope.max_downloads,
      )
      refl

NumbersRead-grantee_json :
    (other : String → Number) (g : Grantee) → NumbersRead other (grantee_json g)
unfolding NumbersRead
NumbersRead-grantee_json other g = (tt, key_read g.public_key)
  where
    key_read : (key : Option String) → FieldsRead other (field_if "publicKey" str key end)
    key_read none = tt
    key_read (some key) = (tt, tt)

NumbersRead-scope_json :
    (other : String → Number) (s : GrantScope) → NumbersRead other (scope_json s)
unfolding NumbersRead
NumbersRead-scope_json other s = (tt, optional s.fields s.max_downloads)
  where
    cap_read : (cap : Option ℕ) → FieldsRead other (field_if "maxDownloads" nat_json cap end)
    cap_read none = tt
    cap_read (some n) = (tt, tt)

    optional :
        (fields : Option (List String)) (cap : Option ℕ) → FieldsRead other (scope_rest fields cap)
    optional none cap = cap_read cap
    optional (some fields) cap = (ItemsRead-string_items other fields, cap_read cap)

-- A grant holds natural numbers only.
pub NumbersRead-signed_json :
    (other : String → Number) (g : SignedAccessGrant) → NumbersRead other (signed_json g)
unfolding NumbersRead signed_json claims_json
NumbersRead-signed_json other g =
    let grantee = NumbersRead-grantee_json other g.claims.grantee in
    let scope = NumbersRead-scope_json other g.claims.scope in
    (
      (
        tt,
        (
          tt,
          (
            tt,
            (
              tt,
              (
                grantee,
                (
                  (tt, (tt, tt)),
                  ((tt, (tt, tt)), (scope, (tt, (tt, (tt, (tt, (tt, (tt, (tt, (tt, tt)))))))))),
                ),
              ),
            ),
          ),
        ),
      ),
      (tt, (tt, tt)),
    )
