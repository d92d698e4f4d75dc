-- ===== src/Web/Held.antt =====
-- apps/web/src/lib/identity.ts: the grants that a browser holds. The storage is the text under one key,
-- if it is there; its list is an array, as the code writes it. Anything else fails in the code when the
-- list is filtered, and is read as empty here.
pub mod Kept
use beckn_data_commons.Base.{
  String, Bool, not, ◌==◌, Option, none, some, List, [], ◌∷◌, take, select, or_else, ◌>>=◌,
}
use beckn_data_commons.Js.{Number}
use beckn_data_commons.Grant.Types.{SignedAccessGrant, signed_json}
use beckn_data_commons.Json.{Json, str, arr, obj, field, end, items, from_items, get}
use beckn_data_commons.Json.Texts.{string_of}
use beckn_data_commons.Json.Print.{json_stringify}
use beckn_data_commons.Json.Parser.{json_parse}

pub record HeldGrant : Type 0 where
  pub grant : SignedAccessGrant
  pub access_url : String
  pub name : String
  pub obtained_at : String

abbrev pub held_json : HeldGrant → Json
held_json h = obj (
    field "grant" (signed_json h.grant) (
      field "accessUrl" (str h.access_url)
        (field "name" (str h.name) (field "obtainedAt" (str h.obtained_at) end))))

abbrev pub array : Json → List Json
array (arr vs) = items vs
array _ = []

-- `g.grant.claims.grantId`, a text
abbrev pub grant_id_of : Json → String
grant_id_of held = string_of (get "grantId" (get "claims" (get "grant" held)))

abbrev pub differs : Json → Json → Bool
differs held g = not (grant_id_of g == grant_id_of held)

module _ (other : String → Number) where
  unfoldable pub list_held_grants : Option String → List Json
  unfolding json_parse
  list_held_grants storage =
      or_else (do v ← json_parse other (or_else storage "[]"); some (array v)) []

  -- the grant comes first, in the place of one with its id, and fifty are kept
  unfoldable pub add_held_grant : Json → Option String → Option String
  unfolding list_held_grants json_stringify
  add_held_grant held storage = some (
      json_stringify
        (arr (from_items (take 50 (held ∷ select (differs held) (list_held_grants storage))))))
