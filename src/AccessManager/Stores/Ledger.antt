-- ===== src/AccessManager/Stores/Ledger.antt =====
-- What a store of grants promises, by what `get` returns after each operation.
pub mod Terminal
pub mod Refines
use beckn_data_commons.Base.{
  ℕ, String, Bool, true, false, ◌==◌, ◌≡◌, refl, arith, Option, none, some, List, [], ◌∷◌, All,
  eq_iff, if◌then◌else◌,
}
use beckn_data_commons.AccessManager.Types.{
  GrantStatus, issued, revoked, expired, GrantRecord, RevokeOutcome, now_revoked, not_found,
  already_revoked, GrantStore,
}
use beckn_data_commons.AccessManager.Stores.Memory.{is_revoked, has_lapsed}

abbrev pub revoked_record : GrantRecord → GrantRecord
revoked_record r = record r { status = revoked }

abbrev pub swept_record : ℕ → GrantRecord → GrantRecord
swept_record now_seconds r = if has_lapsed now_seconds r then record r { status = expired } else r

abbrev pub change : (GrantRecord → GrantRecord) → Option GrantRecord → Option GrantRecord
change f none = none
change f (some r) = some (f r)

abbrev pub outcome_of : Option GrantRecord → RevokeOutcome
outcome_of none = not_found
outcome_of (some r) = if is_revoked r.status then already_revoked else now_revoked

pub record IsGrantStore {S : Type 0} (store : GrantStore S) : Type 0 where
  pub saved :
      (r : GrantRecord) (s : S)
      → store.get r.grant_id s ≡ none
      → store.get r.grant_id (store.save r s) ≡ some r
  pub saved_others :
      (r : GrantRecord) (s : S) (j : String)
      → (r.grant_id == j) ≡ false
      → store.get j (store.save r s) ≡ store.get j s
  pub after_revoke :
      (k reason j : String) (s : S)
      → store.get j (store.revoke k reason s).1
        ≡ (if k == j then change revoked_record (store.get j s) else store.get j s)
  pub outcome :
      (k reason : String) (s : S) → (store.revoke k reason s).0 ≡ outcome_of (store.get k s)
  pub after_sweep :
      (now_seconds : ℕ) (j : String) (s : S)
      → store.get j (store.mark_expired now_seconds s).1
        ≡ change (swept_record now_seconds) (store.get j s)

pub revoked_record_of_revoked :
    (r : GrantRecord) → is_revoked r.status ≡ true → revoked_record r ≡ r
revoked_record_of_revoked r h = go r.status h
  where
    go :
        (t : GrantStatus)
        → is_revoked t ≡ true
        → record r { status = revoked } ≡ record r { status = t }
    go revoked h = refl
    go issued h = cc
    go expired h = cc
