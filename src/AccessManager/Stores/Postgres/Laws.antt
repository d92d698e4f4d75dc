-- ===== src/AccessManager/Stores/Postgres/Laws.antt =====
-- The store in Postgres keeps what a store of grants promises.
use beckn_data_commons.Base.{
  ℕ, String, false, ◌==◌, ◌≡◌, refl, arith, none, some, List, [], ◌∷◌, Option-cases, Bool-cases,
  inl, inr, eq_iff, eq_refl, if◌then◌else◌,
}
use beckn_data_commons.AccessManager.Types.{GrantRecord}
use beckn_data_commons.AccessManager.Stores.Memory.{is_revoked}
use beckn_data_commons.AccessManager.Stores.Ledger.{
  IsGrantStore, change, outcome_of, revoked_record, swept_record, revoked_record_of_revoked,
}
use beckn_data_commons.AccessManager.Stores.Postgres.{
  Tables, row_of, insert_row, set_revoked, expire_rows, save, get, revoke, mark_expired,
  postgres_store,
}

row_of-insert_row :
    (r : GrantRecord) (rows : List GrantRecord)
    → row_of r.grant_id rows ≡ none
    → row_of r.grant_id (insert_row r rows) ≡ some r
unfolding row_of insert_row
row_of-insert_row r [] h = rw (eq_refl r.grant_id)
row_of-insert_row r (s ∷ rows) h = ground (arith, row_of-insert_row r rows)

row_of-insert_row_others :
    (r : GrantRecord) (rows : List GrantRecord) (j : String)
    → (r.grant_id == j) ≡ false
    → row_of j (insert_row r rows) ≡ row_of j rows
unfolding row_of insert_row
row_of-insert_row_others r [] j h = rw h
row_of-insert_row_others r (s ∷ rows) j h = ground (arith, row_of-insert_row_others r rows j h)

row_of-set_revoked :
    (k j : String) (rows : List GrantRecord)
    → row_of j (set_revoked k rows)
      ≡ (if k == j then change revoked_record (row_of j rows) else row_of j rows)
unfolding row_of set_revoked
row_of-set_revoked k j [] = ground arith
row_of-set_revoked k j (r ∷ rows) =
    ground
      (arith, eq_iff r.grant_id k, eq_iff r.grant_id j, eq_iff k j, row_of-set_revoked k j rows)

row_of-expire_rows :
    (now_seconds : ℕ) (j : String) (rows : List GrantRecord)
    → row_of j (expire_rows now_seconds rows).1 ≡ change (swept_record now_seconds) (row_of j rows)
unfolding row_of expire_rows
row_of-expire_rows now_seconds j [] = refl
row_of-expire_rows now_seconds j (r ∷ rows) = ground (arith, row_of-expire_rows now_seconds j rows)

module _ (k reason : String) (t : Tables) where
  get-revoke :
      (j : String)
      → get j (revoke k reason t).1 ≡ (if k == j then change revoked_record (get j t) else get j t)
  unfolding get revoke
  get-revoke j = elim (Option-cases (row_of k t.grants)) [
    | inl absent ↦ rw (absent, revoke) (ground (arith, eq_iff k j, absent))
    | inr (r, found) ↦ elim (Bool-cases (is_revoked r.status)) [
      | inl old ↦
          rw (found, revoke)
            (rw old (ground (arith, eq_iff k j, found, revoked_record_of_revoked r old)))
      | inr new ↦ rw (found, revoke) (rw new (row_of-set_revoked k j t.grants))
    ]
  ]

  revoke-outcome : (revoke k reason t).0 ≡ outcome_of (get k t)
  unfolding get revoke
  revoke-outcome = elim (Option-cases (row_of k t.grants)) [
    | inl absent ↦ rw (absent, revoke)
    | inr (r, found) ↦ elim (Bool-cases (is_revoked r.status)) [
      | inl old ↦ rw (found, revoke) (rw old)
      | inr new ↦ rw (found, revoke) (rw new)
    ]
  ]

pub postgres_store-IsGrantStore : IsGrantStore postgres_store
unfolding get save mark_expired
postgres_store-IsGrantStore = record {
  saved = λ r s h. row_of-insert_row r s.grants h;
  saved_others = λ r s j h. row_of-insert_row_others r s.grants j h;
  after_revoke = λ k reason j s. get-revoke k reason s j;
  outcome = λ k reason s. revoke-outcome k reason s;
  after_sweep = λ now_seconds j s. row_of-expire_rows now_seconds j s.grants;
}
