-- ===== src/Canonical/Order.antt =====
-- The canonical text does not depend on the order of the keys.
use beckn_data_commons.Base.{String, List, [], ◌∷◌, ◌≡◌, ◌≢◌, refl, ◌∙◌, arith}
use beckn_data_commons.Js.Text.Order.{text_lt-asym, text_lt-total, text_lt-between}
use beckn_data_commons.Json.{Json, arr, obj, Items, nil, cons, Fields, end, field}
use beckn_data_commons.Canonical.{
  Entry, insert_entry, sort_entries, serialize, serialize_items, entries, canonical_json,
}

-- Two values that differ in the order of keys only, at any depth.
mutual
  pub data Reordered : Json → Json → Type 0 where
    same : (v : Json) → Reordered v v
    in_arr : {vs ws : Items} → ReorderedItems vs ws → Reordered (arr vs) (arr ws)
    in_obj : {fs gs : Fields} → ReorderedFields fs gs → Reordered (obj fs) (obj gs)

  pub data ReorderedItems : Items → Items → Type 0 where
    nil_nil : ReorderedItems nil nil
    cons_cons :
        {v w : Json} {vs ws : Items}
        → Reordered v w
        → ReorderedItems vs ws
        → ReorderedItems (cons v vs) (cons w ws)

  pub data ReorderedFields : Fields → Fields → Type 0 where
    end_end : ReorderedFields end end
    keep :
        (k : String) {v w : Json} {fs gs : Fields}
        → Reordered v w
        → ReorderedFields fs gs
        → ReorderedFields (field k v fs) (field k w gs)
    swap :
        (k j : String) (v w : Json) (fs : Fields)
        → k ≢ j
        → ReorderedFields (field k v (field j w fs)) (field j w (field k v fs))
    chain :
        {fs gs hs : Fields} → ReorderedFields fs gs → ReorderedFields gs hs → ReorderedFields fs hs

module _ (a b : Entry) (ne : a.0 ≢ b.0) where
  -- one round, where the later rounds agree
  insert_entry-swap_step :
      (d : Entry) (ds : List Entry)
      → insert_entry a (insert_entry b ds) ≡ insert_entry b (insert_entry a ds)
      → insert_entry a (insert_entry b (d ∷ ds)) ≡ insert_entry b (insert_entry a (d ∷ ds))
  unfolding insert_entry
  insert_entry-swap_step d ds ih = ground (
    arith,
    text_lt-asym a.0 b.0,
    text_lt-total a.0 b.0 ne,
    text_lt-between a.0 b.0 d.0,
    text_lt-between b.0 a.0 d.0,
  )

  insert_entry-swap :
      (ds : List Entry) → insert_entry a (insert_entry b ds) ≡ insert_entry b (insert_entry a ds)
  unfolding insert_entry
  insert_entry-swap [] = ground (arith, text_lt-asym a.0 b.0, text_lt-total a.0 b.0 ne)
  insert_entry-swap (d ∷ ds) = insert_entry-swap_step d ds (insert_entry-swap ds)

mutual
  unfolding serialize sort_entries

  serialize-Reordered : {v w : Json} → Reordered v w → serialize v ≡ serialize w
  serialize-Reordered (same v) = refl
  serialize-Reordered (in_arr r) = rw (serialize_items-Reordered r)
  serialize-Reordered (in_obj r) = rw (entries-Reordered r)

  serialize_items-Reordered :
      {vs ws : Items} → ReorderedItems vs ws → serialize_items vs ≡ serialize_items ws
  serialize_items-Reordered nil_nil = refl
  serialize_items-Reordered (cons_cons r rs) =
      rw (serialize-Reordered r, serialize_items-Reordered rs)

  entries-Reordered :
      {fs gs : Fields}
      → ReorderedFields fs gs
      → sort_entries (entries fs) ≡ sort_entries (entries gs)
  entries-Reordered end_end = refl
  entries-Reordered (keep k r rs) = rw (serialize-Reordered r, entries-Reordered rs)
  entries-Reordered (swap k j v w fs ne) =
      insert_entry-swap (k, serialize v) (j, serialize w) ne (sort_entries (entries fs))
  entries-Reordered (chain r s) = entries-Reordered r ∙ entries-Reordered s

-- Values that differ in the order of their objects' keys only, at any depth, have the same canonical
-- text, or both have none.
pub canonical_json-Reordered : {v w : Json} → Reordered v w → canonical_json v ≡ canonical_json w
unfolding canonical_json
canonical_json-Reordered r = serialize-Reordered r
