-- ===== src/Canonical/Wire.antt =====
-- Whatever crosses the wire has a canonical text.
use beckn_data_commons.Base.{
  String, true, false, Option, none, some, List, [], ◌∷◌, ◌≡◌, refl, Bool-cases, inl, inr, is_some,
}
use beckn_data_commons.Js.{nat, fraction, negative, non_finite}
use beckn_data_commons.Js.Text.{text_lt}
use beckn_data_commons.Json.{
  Json, undefined, null, bool, num, str, arr, obj, Items, nil, cons, Fields, end, field, wire,
  wire_items, wire_fields,
}
use beckn_data_commons.Canonical.{
  Entry, insert_entry, sort_entries, parts_of, serialize, serialize_items, entries, canonical_json,
}

abbrev Has {ℓ} : {A : Type ℓ} → Option A → Type 0
Has o = is_some o ≡ true

value_of {ℓ} : {A : Type ℓ} (o : Option A) → Has o → (a : A) × (o ≡ some a)
value_of (some a) h = (a, refl)
value_of none h = cc

-- every entry has a text
abbrev Full : List Entry → Type 0
Full [] = Unit
Full ((k, t) ∷ es) = Has t × Full es

Full-insert_entry : (e : Entry) (es : List Entry) → Has e.1 → Full es → Full (insert_entry e es)
unfolding insert_entry
Full-insert_entry e [] h hs = (h, tt)
Full-insert_entry e (d ∷ ds) h (p, hs) = elim (Bool-cases (text_lt d.0 e.0)) [
  | inl lt ↦ rw lt (p, Full-insert_entry e ds h hs)
  | inr ge ↦ rw ge (h, (p, hs))
]

Full-sort_entries : (es : List Entry) → Full es → Full (sort_entries es)
unfolding sort_entries
Full-sort_entries [] h = tt
Full-sort_entries ((k, t) ∷ es) (h, hs) = Full-insert_entry (k, t) _ h (Full-sort_entries es hs)

parts_of-Full : (es : List Entry) → Full es → Has (parts_of es)
unfolding parts_of
parts_of-Full [] h = refl
parts_of-Full ((k, t) ∷ es) (h, hs) =
    let (text, e) = value_of t h in
    let (parts, es') = value_of (parts_of es) (parts_of-Full es hs) in rw (e, es')

mutual
  unfolding serialize wire

  serialize-wire : (v : Json) → Has (serialize (wire v))
  serialize-wire undefined = refl
  serialize-wire null = refl
  serialize-wire (bool true) = refl
  serialize-wire (bool false) = refl
  serialize-wire (num (nat n)) = refl
  serialize-wire (num (fraction n b s)) = refl
  serialize-wire (num (negative n b s)) = refl
  serialize-wire (num (non_finite s)) = refl
  serialize-wire (str s) = refl
  serialize-wire (arr vs) =
      let (parts, e) = value_of (serialize_items (wire_items vs)) (serialize_items-wire vs) in rw e
  serialize-wire (obj fs) =
      let es = sort_entries (entries (wire_fields fs)) in
      let (parts, e) =
        value_of (parts_of es) (parts_of-Full es (Full-sort_entries _ (Full-wire fs))) in
      rw e

  serialize_items-wire : (vs : Items) → Has (serialize_items (wire_items vs))
  serialize_items-wire nil = refl
  serialize_items-wire (cons v vs) =
      let (text, e) = value_of (serialize (wire v)) (serialize-wire v) in
      let (parts, es) = value_of (serialize_items (wire_items vs)) (serialize_items-wire vs) in
      rw (e, es)

  Full-wire : (fs : Fields) → Full (entries (wire_fields fs))
  Full-wire end = tt
  Full-wire (field k undefined fs) = Full-wire fs
  Full-wire (field k v fs) = (serialize-wire v, Full-wire fs)

-- After `JSON.parse(JSON.stringify(v))` every value has a canonical text: signing a message body
-- never throws.
pub canonical_json-wire : (v : Json) → (text : String) × (canonical_json (wire v) ≡ some text)
unfolding canonical_json
canonical_json-wire v = value_of (serialize (wire v)) (serialize-wire v)
