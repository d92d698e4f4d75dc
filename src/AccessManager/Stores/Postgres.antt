-- ===== src/AccessManager/Stores/Postgres.antt =====
-- stores/postgres.ts: the tables `grants` and `grant_revocations`, and the statements on them. A
-- transaction is one step, as `FOR UPDATE` on the grant's row makes it.
pub mod Laws
pub mod Shared
use beckn_data_commons.Base.{
  ℕ, ◌+◌, String, Bool, true, false, ◌||◌, ◌&&◌, Option, none, some, List, [], ◌∷◌, ◌++◌, ◌==◌, ltb,
  select, if◌then◌else◌,
}
use beckn_data_commons.AccessManager.Types.{
  GrantStatus, issued, revoked, expired, GrantRecord, RevokeOutcome, now_revoked, not_found,
  already_revoked, GrantStore,
}
use beckn_data_commons.AccessManager.Stores.Memory.{is_revoked, has_lapsed, newest_first}

-- `toRecord` makes a row a record with the same contents
pub record Tables : Type 0 where
  pub grants : List GrantRecord
  -- the primary key and the reason
  pub grant_revocations : List (String × String)

abbrev pub empty : Tables
empty = record { grants = []; grant_revocations = [] }

-- SELECT … WHERE grant_id = $1
unfoldable pub row_of : String → List GrantRecord → Option GrantRecord
row_of grant_id [] = none
row_of grant_id (r ∷ rs) = if r.grant_id == grant_id then some r else row_of grant_id rs

-- INSERT … ON CONFLICT (grant_id) DO NOTHING
unfoldable pub insert_row : GrantRecord → List GrantRecord → List GrantRecord
insert_row r [] = r ∷ []
insert_row r (s ∷ ss) = if s.grant_id == r.grant_id then s ∷ ss else s ∷ insert_row r ss

-- UPDATE grants SET status = 'REVOKED' WHERE grant_id = $1
unfoldable pub set_revoked : String → List GrantRecord → List GrantRecord
set_revoked grant_id [] = []
set_revoked grant_id (r ∷ rs) =
    (if r.grant_id == grant_id then record r { status = revoked } else r) ∷ set_revoked grant_id rs

unfoldable pub has_revocation : String → List (String × String) → Bool
has_revocation grant_id [] = false
has_revocation grant_id ((k, reason) ∷ m) = k == grant_id || has_revocation grant_id m

-- INSERT INTO grant_revocations … ON CONFLICT (grant_id) DO NOTHING
unfoldable pub insert_revocation : String → String → List (String × String) → List (String × String)
insert_revocation grant_id reason m =
    if has_revocation grant_id m then m else m ++ (grant_id, reason) ∷ []

-- UPDATE grants SET status = 'EXPIRED' WHERE status = 'ISSUED' AND expires_at < $1, with its count
unfoldable pub expire_rows : ℕ → List GrantRecord → ℕ × List GrantRecord
expire_rows now_seconds [] = (0, [])
expire_rows now_seconds (r ∷ rs) =
    let (n, rs') = expire_rows now_seconds rs in
    if has_lapsed now_seconds r then (n + 1, record r { status = expired } ∷ rs') else (n, r ∷ rs')

unfoldable pub save : GrantRecord → Tables → Tables
save r t = record t { grants = insert_row r t.grants }

unfoldable pub get : String → Tables → Option GrantRecord
get grant_id t = row_of grant_id t.grants

-- ORDER BY issued_at DESC; rows of one time come in the order of the table
unfoldable pub list_by_grantee : String → Tables → List GrantRecord
list_by_grantee grantee_id t = newest_first (select (λ r. r.grantee_id == grantee_id) t.grants)

unfoldable pub revoke : String → String → Tables → RevokeOutcome × Tables
revoke grant_id reason t = elim (row_of grant_id t.grants) [
  | none ↦ (not_found, t)
  | some r ↦ if is_revoked r.status then (already_revoked, t) else (
    now_revoked,
    record {
      grants = set_revoked grant_id t.grants;
      grant_revocations = insert_revocation grant_id reason t.grant_revocations;
    },
  )
]

unfoldable pub mark_expired : ℕ → Tables → ℕ × Tables
mark_expired now_seconds t =
    let (n, rows) = expire_rows now_seconds t.grants in (n, record t { grants = rows })

abbrev pub postgres_store : GrantStore Tables
postgres_store = record {
  save = save;
  get = get;
  list_by_grantee = list_by_grantee;
  revoke = revoke;
  mark_expired = mark_expired;
}
