-- ===== src/AccessManager/Stores/Agree.antt =====
-- The store in memory and the store in Postgres, side by side.
use beckn_data_commons.Base.{String, ◌≡◌, refl, none, List, ◌∙◌, sym}
use beckn_data_commons.AccessManager.Stores.Memory
use beckn_data_commons.AccessManager.Stores.Memory.{memory_store}
use beckn_data_commons.AccessManager.Stores.Memory.Laws.{memory_store-IsGrantStore}
use beckn_data_commons.AccessManager.Stores.Postgres
use beckn_data_commons.AccessManager.Stores.Postgres.{postgres_store, row_of}
use beckn_data_commons.AccessManager.Stores.Postgres.Laws.{postgres_store-IsGrantStore}
use beckn_data_commons.AccessManager.Stores.Ledger.Terminal.{Operation, apply_all}
use beckn_data_commons.AccessManager.Stores.Ledger.Refines.{
  Ledger, AreNewIn, ledger_after, answer, get-apply_all,
}
use beckn_data_commons.Js.Map.{map_get}

abbrev pub nothing_known : Ledger
nothing_known j = none

memory-empty : (j : String) → Memory.get j Memory.empty ≡ none
unfolding Memory.get map_get
memory-empty j = refl

postgres-empty : (j : String) → Postgres.get j Postgres.empty ≡ none
unfolding Postgres.get row_of
postgres-empty j = refl

-- Each of the two stores, from empty and after any operations that save new grants, answers `get` with
-- what the abstract ledger knows of the id, and `revoke` with what that ledger answers: a revoked grant
-- is already revoked, an unknown one is not found, and any other is revoked now. In the ledger a sweep
-- expires an issued grant whose lifetime is over, and a revocation revokes a known one.
pub stores-ledger_after :
    (os : List Operation) (grant_id reason : String)
    → AreNewIn os nothing_known
    → (Memory.get grant_id (apply_all memory_store os Memory.empty)
        ≡ ledger_after os nothing_known grant_id)
      × ((Memory.revoke grant_id reason (apply_all memory_store os Memory.empty)).0
          ≡ answer (ledger_after os nothing_known grant_id))
      × (Postgres.get grant_id (apply_all postgres_store os Postgres.empty)
          ≡ ledger_after os nothing_known grant_id)
      × ((Postgres.revoke grant_id reason (apply_all postgres_store os Postgres.empty)).0
          ≡ answer (ledger_after os nothing_known grant_id))
stores-ledger_after os grant_id reason new =
    let (held, refused) =
      get-apply_all memory_store memory_store-IsGrantStore os Memory.empty nothing_known grant_id
        reason memory-empty new in
    let (kept, answered) =
      get-apply_all postgres_store postgres_store-IsGrantStore os Postgres.empty nothing_known
        grant_id reason postgres-empty new in
    (held, refused, kept, answered)

-- After the same operations from empty stores, each saving new grants, the store in memory and the
-- one in Postgres answer `get` and `revoke` alike.
pub memory_store-postgres_store :
    (os : List Operation) (grant_id reason : String)
    → AreNewIn os nothing_known
    → (Memory.get grant_id (apply_all memory_store os Memory.empty)
        ≡ Postgres.get grant_id (apply_all postgres_store os Postgres.empty))
      × ((Memory.revoke grant_id reason (apply_all memory_store os Memory.empty)).0
          ≡ (Postgres.revoke grant_id reason (apply_all postgres_store os Postgres.empty)).0)
memory_store-postgres_store os grant_id reason new =
    let (held, refused, kept, answered) = stores-ledger_after os grant_id reason new in
    (held ∙ sym kept, refused ∙ sym answered)
