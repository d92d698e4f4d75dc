-- ===== src/Canonical.antt =====
-- packages/crypto-utils/src/canonical.ts: the text of a value with the keys of its objects sorted.
-- A thrown `TypeError` is `none`.
pub mod Order
pub mod Wire
use Prim.Native.Char.{Char, code}
use Prim.Native.String
use Prim.Native.String.{char_at}
use beckn_data_commons.Base.{
  ℕ, ◌/◌, ◌%◌, String, Bool, true, false, Option, none, some, List, [], ◌∷◌, ltb, eqb, ◌>>=◌,
  if◌then◌else◌,
}
use beckn_data_commons.Js.{Number, nat, fraction, negative, non_finite, number_text}
use beckn_data_commons.Js.Text.{text_lt, join}
use beckn_data_commons.Json.Quote.{quote}
use beckn_data_commons.Json.{
  Json, undefined, null, bool, num, str, arr, obj, Items, nil, cons, Fields, end, field,
}

-- an object's own property with the text of its value, which is computed where it is read
abbrev pub Entry : Type 0
Entry = String × Option String

-- the insertion of one entry in the stable sort by `a < b ? -1 : a > b ? 1 : 0`
unfoldable pub insert_entry : Entry → List Entry → List Entry
insert_entry e [] = e ∷ []
insert_entry e (d ∷ ds) = if text_lt d.0 e.0 then d ∷ insert_entry e ds else e ∷ d ∷ ds

unfoldable pub sort_entries : List Entry → List Entry
unfolding insert_entry
sort_entries [] = []
sort_entries (e ∷ es) = insert_entry e (sort_entries es)

-- the loop over the sorted entries, which stops at the first value that has no text
unfoldable pub parts_of : List Entry → Option (List String)
unfolding quote
parts_of [] = some []
parts_of ((key, val) ∷ es) = do
  text ← val
  parts ← parts_of es
  some (String.◌++◌ (quote key) (String.◌++◌ ":" text) ∷ parts)

abbrev pub bracket : String → List String → String → String
bracket open_with parts close_with = String.◌++◌ open_with (String.◌++◌ (join "," parts) close_with)

abbrev pub serialize_number : Number → Option String
serialize_number (non_finite s) = none
serialize_number n = some (number_text n)

unfoldable mutual
  unfolding quote sort_entries parts_of number_text join

  pub serialize : Json → Option String
  serialize undefined = none
  serialize null = some "null"
  serialize (bool true) = some "true"
  serialize (bool false) = some "false"
  serialize (num n) = serialize_number n
  serialize (str s) = some (quote s)
  serialize (arr vs) = do parts ← serialize_items vs; some (bracket "[" parts "]")
  serialize (obj fs) = do parts ← parts_of (sort_entries (entries fs)); some (bracket "{" parts "}")

  pub serialize_items : Items → Option (List String)
  serialize_items nil = some []
  serialize_items (cons v vs) = do
    text ← serialize v
    parts ← serialize_items vs
    some (text ∷ parts)

  pub entries : Fields → List Entry
  entries end = []
  entries (field k v fs) = (k, serialize v) ∷ entries fs

unfoldable pub canonical_json : Json → Option String
unfolding serialize
canonical_json v = serialize v
