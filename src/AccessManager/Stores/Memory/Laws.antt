-- ===== src/AccessManager/Stores/Memory/Laws.antt =====
-- The store in memory keeps what a store of grants promises.
use beckn_data_commons.Base.{
  ℕ, String, ◌==◌, ◌≡◌, refl, arith, [], ◌∷◌, Option-cases, Bool-cases, inl, inr, eq_iff,
  if◌then◌else◌,
}
use beckn_data_commons.Js.Map.{map_get}
use beckn_data_commons.Js.Map.Laws.{map_get-map_set, map_get-map_set_self}
use beckn_data_commons.AccessManager.Stores.Memory.{
  Grants, save, get, revoke, mark_expired, memory_store, is_revoked,
}
use beckn_data_commons.AccessManager.Stores.Ledger.{
  IsGrantStore, change, outcome_of, revoked_record, swept_record, revoked_record_of_revoked,
}

module _ (k reason : String) (m : Grants) where
  get-revoke :
      (j : String)
      → get j (revoke k reason m).1 ≡ (if k == j then change revoked_record (get j m) else get j m)
  unfolding get revoke
  get-revoke j = elim (Option-cases (map_get k m)) [
    | inl absent ↦ rw (absent, revoke) (ground (arith, eq_iff k j, absent))
    | inr (r, found) ↦ elim (Bool-cases (is_revoked r.status)) [
      | inl old ↦
          rw (found, revoke)
            (rw old (ground (arith, eq_iff k j, found, revoked_record_of_revoked r old)))
      | inr new ↦ rw (found, revoke) (rw (new, map_get-map_set) (ground (arith, eq_iff k j, found)))
    ]
  ]

  revoke-outcome : (revoke k reason m).0 ≡ outcome_of (get k m)
  unfolding get revoke
  revoke-outcome = elim (Option-cases (map_get k m)) [
    | inl absent ↦ rw (absent, revoke)
    | inr (r, found) ↦ elim (Bool-cases (is_revoked r.status)) [
      | inl old ↦ rw (found, revoke) (rw old)
      | inr new ↦ rw (found, revoke) (rw new)
    ]
  ]

get-mark_expired :
    (now_seconds : ℕ) (j : String) (m : Grants)
    → get j (mark_expired now_seconds m).1 ≡ change (swept_record now_seconds) (get j m)
unfolding get mark_expired map_get
get-mark_expired now_seconds j [] = refl
get-mark_expired now_seconds j ((k, r) ∷ m) = ground (arith, get-mark_expired now_seconds j m)

pub memory_store-IsGrantStore : IsGrantStore memory_store
unfolding get save
memory_store-IsGrantStore = record {
  saved = λ r s h. map_get-map_set_self r.grant_id r s;
  saved_others = λ r s j h. rw (map_get-map_set, h);
  after_revoke = λ k reason j s. get-revoke k reason s j;
  outcome = λ k reason s. revoke-outcome k reason s;
  after_sweep = get-mark_expired;
}
