-- ===== src/Js/Map/Laws.antt =====
-- Reading a `Map` after a write.
use beckn_data_commons.Base.{
  String, none, some, List, [], ◌∷◌, ◌==◌, ◌≡◌, refl, arith, eq_iff, eq_refl, if◌then◌else◌,
}
use beckn_data_commons.Js.Map.{map_get, map_set, map_delete}

module _ {ℓ} {V : Type ℓ} where
  pub map_get-map_set :
      (key j : String) (v : V) (m : List (String × V))
      → map_get j (map_set key v m) ≡ (if key == j then some v else map_get j m)
  unfolding map_get map_set
  map_get-map_set key j v [] = refl
  map_get-map_set key j v ((k, w) ∷ m) =
      ground (arith, eq_iff key j, eq_iff k key, eq_iff k j, map_get-map_set key j v m)

  pub map_get-map_set_self :
      (key : String) (v : V) (m : List (String × V)) → map_get key (map_set key v m) ≡ some v
  map_get-map_set_self key v m = simp (map_get-map_set, eq_refl)

  pub map_get-map_delete :
      (key j : String) (m : List (String × V))
      → map_get j (map_delete key m) ≡ (if key == j then none else map_get j m)
  unfolding map_get map_delete
  map_get-map_delete key j [] = ground arith
  map_get-map_delete key j ((k, w) ∷ m) =
      ground (arith, eq_iff key j, eq_iff k key, eq_iff k j, map_get-map_delete key j m)
