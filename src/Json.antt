-- ===== src/Json.antt =====
-- Values that cross the wire: JSON, and the `undefined` that JavaScript objects may hold. An object
-- is the list of its own properties in order, each name once.
pub mod Wire
pub mod Texts
pub mod Quote
pub mod Print
pub mod Lexer
pub mod Parser
use beckn_data_commons.Base.{
  ℕ, String, Bool, true, false, Option, none, some, List, [], ◌∷◌, ◌==◌, if◌then◌else◌,
}
use beckn_data_commons.Js.{Number, nat, fraction, negative, non_finite}

mutual
  pub data Json : Type 0 where
    undefined null : Json
    bool : Bool → Json
    num : Number → Json
    str : String → Json
    arr : Items → Json
    obj : Fields → Json

  pub data Items : Type 0 where
    nil : Items
    cons : Json → Items → Items

  pub data Fields : Type 0 where
    end : Fields
    field : String → Json → Fields → Fields

abbrev pub items : Items → List Json
items nil = []
items (cons v vs) = v ∷ items vs

abbrev pub from_items : List Json → Items
from_items [] = nil
from_items (v ∷ vs) = cons v (from_items vs)

-- `o[key]` on the own properties; `undefined` where there is none
unfoldable pub get_field : String → Fields → Json
get_field key end = undefined
get_field key (field k v fs) = if k == key then v else get_field key fs

-- `v.key`, where a value that is no object has no such property
unfoldable pub get : String → Json → Json
unfolding get_field
get key (obj fs) = get_field key fs
get key _ = undefined

-- `{ ...o, [key]: v }`: a property that is there keeps its place
unfoldable pub set_field : String → Json → Fields → Fields
set_field key v end = field key v end
set_field key v (field k w fs) =
    let rest = set_field key v fs in if k == key then field k v fs else field k w rest

-- `v ?? d`
abbrev pub nullish : Json → Json → Json
nullish undefined d = d
nullish null d = d
nullish v d = v

-- `v?.[0]`
abbrev pub element_0 : Json → Json
element_0 (arr (cons v vs)) = v
element_0 (obj fs) = get "0" (obj fs)
element_0 _ = undefined

-- `Object.keys(o)`
abbrev pub keys : Fields → List String
keys end = []
keys (field k v fs) = k ∷ keys fs

abbrev pub wire_number : Number → Json
wire_number (non_finite s) = null
wire_number n = num n

-- `JSON.parse(JSON.stringify(v))`: properties that are `undefined` are left out, and what JSON cannot
-- say elsewhere is `null`
unfoldable mutual
  pub wire : Json → Json
  wire undefined = null
  wire null = null
  wire (bool b) = bool b
  wire (num n) = wire_number n
  wire (str s) = str s
  wire (arr vs) = arr (wire_items vs)
  wire (obj fs) = obj (wire_fields fs)

  pub wire_items : Items → Items
  wire_items nil = nil
  wire_items (cons v vs) = cons (wire v) (wire_items vs)

  pub wire_fields : Fields → Fields
  wire_fields end = end
  wire_fields (field k undefined fs) = wire_fields fs
  wire_fields (field k v fs) = field k (wire v) (wire_fields fs)
