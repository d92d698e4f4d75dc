-- ===== src/AccessManager/Stores/Memory.antt =====
-- stores/memory.ts: a `Map` from grant ids to records.
pub mod Laws
use beckn_data_commons.Base.{
  ℕ, ◌+◌, String, Bool, true, false, Option, none, some, List, [], ◌∷◌, ◌==◌, ltb, select, ◌&&◌,
  if◌then◌else◌,
}
use beckn_data_commons.Js.Map.{map_get, map_set, map_values}
use beckn_data_commons.AccessManager.Types.{
  GrantStatus, issued, revoked, expired, GrantRecord, RevokeOutcome, now_revoked, not_found,
  already_revoked, GrantStore,
}

abbrev pub Grants : Type 0
Grants = List (String × GrantRecord)

abbrev pub empty : Grants
empty = []

unfoldable pub save : GrantRecord → Grants → Grants
save r m = map_set r.grant_id r m

unfoldable pub get : String → Grants → Option GrantRecord
get grant_id m = map_get grant_id m

-- one insertion of the stable sort by `b.issuedAt - a.issuedAt`
unfoldable pub insert_newest : GrantRecord → List GrantRecord → List GrantRecord
insert_newest r [] = r ∷ []
insert_newest r (s ∷ ss) =
    if ltb r.issued_at s.issued_at then s ∷ insert_newest r ss else r ∷ s ∷ ss

unfoldable pub newest_first : List GrantRecord → List GrantRecord
newest_first [] = []
newest_first (r ∷ rs) = insert_newest r (newest_first rs)

unfoldable pub list_by_grantee : String → Grants → List GrantRecord
list_by_grantee grantee_id m =
    newest_first (select (λ r. r.grantee_id == grantee_id) (map_values m))

abbrev pub is_revoked : GrantStatus → Bool
is_revoked revoked = true
is_revoked _ = false

abbrev pub is_issued : GrantStatus → Bool
is_issued issued = true
is_issued _ = false

-- `r.status = 'REVOKED'` writes to the record in the map
unfoldable pub revoke : String → String → Grants → RevokeOutcome × Grants
revoke grant_id reason m = elim (map_get grant_id m) [
  | none ↦ (not_found, m)
  | some r ↦
      if is_revoked r.status
      then (already_revoked, m)
      else (now_revoked, map_set grant_id (record r { status = revoked }) m)
]

abbrev pub has_lapsed : ℕ → GrantRecord → Bool
has_lapsed now_seconds r = is_issued r.status && ltb r.expires_at now_seconds

-- the loop over the values, with the count of those that were marked
unfoldable pub mark_expired : ℕ → Grants → ℕ × Grants
mark_expired now_seconds [] = (0, [])
mark_expired now_seconds ((k, r) ∷ m) =
    let (n, m') = mark_expired now_seconds m in
    if has_lapsed now_seconds r
    then (n + 1, (k, record r { status = expired }) ∷ m')
    else (n, (k, r) ∷ m')

abbrev pub memory_store : GrantStore Grants
memory_store = record {
  save = save;
  get = get;
  list_by_grantee = list_by_grantee;
  revoke = revoke;
  mark_expired = mark_expired;
}
