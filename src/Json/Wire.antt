-- ===== src/Json/Wire.antt =====
-- A value that has crossed the wire crosses it unchanged.
use beckn_data_commons.Base.{◌≡◌, refl, String}
use beckn_data_commons.Js.{nat, fraction, negative, non_finite}
use beckn_data_commons.Json.{
  Json, undefined, num, arr, obj, Items, nil, cons, Fields, end, field, wire, wire_items,
  wire_fields,
}

-- a property whose value has crossed is kept
wire_fields-field :
    (k : String) (v : Json) (fs : Fields)
    → wire_fields (field k (wire v) fs) ≡ field k (wire (wire v)) (wire_fields fs)
unfolding wire
wire_fields-field k (num (nat n)) fs = refl
wire_fields-field k (num (fraction a b c)) fs = refl
wire_fields-field k (num (negative a b c)) fs = refl
wire_fields-field k (num (non_finite c)) fs = refl
wire_fields-field k v fs = refl

mutual
  unfolding wire

  wire-wire_value : (v : Json) → wire (wire v) ≡ wire v
  wire-wire_value (num (nat n)) = refl
  wire-wire_value (num (fraction a b c)) = refl
  wire-wire_value (num (negative a b c)) = refl
  wire-wire_value (num (non_finite c)) = refl
  wire-wire_value (arr vs) = rw (wire_items-wire_items vs)
  wire-wire_value (obj fs) = rw (wire_fields-wire_fields fs)
  wire-wire_value v = refl

  wire_items-wire_items : (vs : Items) → wire_items (wire_items vs) ≡ wire_items vs
  wire_items-wire_items nil = refl
  wire_items-wire_items (cons v vs) = rw (wire-wire_value v, wire_items-wire_items vs)

  wire_fields-wire_fields : (fs : Fields) → wire_fields (wire_fields fs) ≡ wire_fields fs
  wire_fields-wire_fields end = refl
  wire_fields-wire_fields (field k undefined fs) = wire_fields-wire_fields fs
  wire_fields-wire_fields (field k v fs) =
      rw (wire_fields-field k v (wire_fields fs), wire-wire_value v, wire_fields-wire_fields fs)

pub wire-wire : (v : Json) → wire (wire v) ≡ wire v
wire-wire v = wire-wire_value v
