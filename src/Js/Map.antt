-- ===== src/Js/Map.antt =====
-- `Map` with texts as keys: the entries in the order of insertion.
pub mod Laws
use beckn_data_commons.Base.{
  String, Bool, true, false, Option, none, some, List, [], ◌∷◌, ◌==◌, ◌||◌, if◌then◌else◌,
}

module _ {ℓ} {V : Type ℓ} where
  unfoldable pub map_get : String → List (String × V) → Option V
  map_get key [] = none
  map_get key ((k, v) ∷ m) = if k == key then some v else map_get key m

  -- a new value stands where the old one stood
  unfoldable pub map_set : String → V → List (String × V) → List (String × V)
  map_set key v [] = (key, v) ∷ []
  map_set key v ((k, w) ∷ m) = if k == key then (k, v) ∷ m else (k, w) ∷ map_set key v m

  unfoldable pub map_values : List (String × V) → List V
  map_values [] = []
  map_values ((k, v) ∷ m) = v ∷ map_values m

  -- `m.delete(key)`
  unfoldable pub map_delete : String → List (String × V) → List (String × V)
  map_delete key [] = []
  map_delete key ((k, v) ∷ m) =
      let rest = map_delete key m in if k == key then rest else (k, v) ∷ rest
