-- ===== src/Bpp/Stores.antt =====
-- services/bpp/src/stores: the ledger of revocations and the counts of redemptions, in memory and in
-- Postgres, behind one interface.
pub mod Laws
use beckn_data_commons.Base.{
  ℕ, ◌+◌, String, Bool, true, false, ◌==◌, ◌||◌, ◌≡◌, ◌≢◌, Option, none, some, List, [], ◌∷◌,
  or_else, is_some, if◌then◌else◌,
}
use beckn_data_commons.Js.Map.{map_get, map_set}
use beckn_data_commons.AccessManager.Stores.Postgres.{has_revocation, insert_revocation}

-- Stores with the state `S`.
pub record RevocationStore (S : Type 0) : Type 0 where
  pub is_revoked : String → S → Bool
  pub revoke : String → String → S → S

pub record RedemptionStore (S : Type 0) : Type 0 where
  pub record_redemption : String → S → ℕ × S
  pub get_count : String → S → ℕ

-- What `redeemGrant` relies on: a revocation stays, whatever is revoked after it.
pub record IsRevocationStore {S : Type 0} (store : RevocationStore S) : Type 0 where
  pub revoked : (k reason : String) (s : S) → store.is_revoked k (store.revoke k reason s) ≡ true
  pub stays :
      (k j reason : String) (s : S)
      → store.is_revoked k s ≡ true
      → store.is_revoked k (store.revoke j reason s) ≡ true

-- A redemption adds one to the count of its grant, returns the new count, and touches no other.
pub record IsRedemptionStore {S : Type 0} (store : RedemptionStore S) : Type 0 where
  pub returned : (k : String) (s : S) → (store.record_redemption k s).0 ≡ store.get_count k s + 1
  pub counted :
      (k : String) (s : S)
      → store.get_count k (store.record_redemption k s).1 ≡ store.get_count k s + 1
  pub others :
      (k j : String) (s : S)
      → k ≢ j
      → store.get_count j (store.record_redemption k s).1 ≡ store.get_count j s

-- `Map` of reasons
unfoldable pub memory_is_revoked : String → List (String × String) → Bool
memory_is_revoked grant_id revoked = is_some (map_get grant_id revoked)

unfoldable pub memory_revoke : String → String → List (String × String) → List (String × String)
memory_revoke grant_id reason revoked = map_set grant_id reason revoked

abbrev pub memory_revocations : RevocationStore (List (String × String))
memory_revocations = record { is_revoked = memory_is_revoked; revoke = memory_revoke }

-- `Map` of counts
unfoldable pub memory_get_count : String → List (String × ℕ) → ℕ
memory_get_count grant_id counts = or_else (map_get grant_id counts) 0

unfoldable pub memory_record_redemption : String → List (String × ℕ) → ℕ × List (String × ℕ)
unfolding memory_get_count
memory_record_redemption grant_id counts =
    let next = memory_get_count grant_id counts + 1 in (next, map_set grant_id next counts)

abbrev pub memory_redemptions : RedemptionStore (List (String × ℕ))
memory_redemptions = record {
  record_redemption = memory_record_redemption;
  get_count = memory_get_count;
}

-- the table `grant_revocations`, which the Access Manager writes with the same statement
abbrev pub postgres_revocations : RevocationStore (List (String × String))
postgres_revocations = record { is_revoked = has_revocation; revoke = insert_revocation }

-- SELECT downloads_used FROM bpp_grant_redemptions WHERE grant_id = $1, or 0
unfoldable pub postgres_get_count : String → List (String × ℕ) → ℕ
postgres_get_count grant_id [] = 0
postgres_get_count grant_id ((k, used) ∷ rows) =
    if k == grant_id then used else postgres_get_count grant_id rows

-- INSERT … VALUES ($1, 1) ON CONFLICT DO UPDATE SET downloads_used = downloads_used + 1 RETURNING
-- downloads_used, one atomic statement
unfoldable pub postgres_record_redemption : String → List (String × ℕ) → ℕ × List (String × ℕ)
postgres_record_redemption grant_id [] = (1, (grant_id, 1) ∷ [])
postgres_record_redemption grant_id ((k, used) ∷ rows) =
    let (n, rows') = postgres_record_redemption grant_id rows in
    if k == grant_id then (used + 1, (k, used + 1) ∷ rows) else (n, (k, used) ∷ rows')

abbrev pub postgres_redemptions : RedemptionStore (List (String × ℕ))
postgres_redemptions = record {
  record_redemption = postgres_record_redemption;
  get_count = postgres_get_count;
}
