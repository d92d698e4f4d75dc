-- ===== src/Bpp/Stores/Laws.antt =====
-- The stores keep what the interface asks.
use beckn_data_commons.Base.{
  ℕ, ◌+◌, String, true, ◌||◌, ◌≡◌, ◌≢◌, refl, arith, List, [], ◌∷◌, ◌++◌, eq_iff, eq_refl,
}
use beckn_data_commons.Js.Map.Laws.{map_get-map_set, map_get-map_set_self}
use beckn_data_commons.AccessManager.Stores.Postgres.{has_revocation, insert_revocation}
use beckn_data_commons.Bpp.Stores.{
  IsRevocationStore, IsRedemptionStore, memory_is_revoked, memory_revoke, memory_revocations,
  memory_get_count, memory_record_redemption, memory_redemptions, postgres_revocations,
  postgres_get_count, postgres_record_redemption, postgres_redemptions,
}

pub memory_revocations-IsRevocationStore : IsRevocationStore memory_revocations
unfolding memory_is_revoked memory_revoke
memory_revocations-IsRevocationStore = record {
  revoked = λ k reason s. rw (map_get-map_set_self k reason s);
  stays = λ k j reason s h. rw (map_get-map_set j k reason s) (ground arith);
}

pub memory_redemptions-IsRedemptionStore : IsRedemptionStore memory_redemptions
unfolding memory_get_count memory_record_redemption
memory_redemptions-IsRedemptionStore = record {
  returned = λ k s. refl;
  counted = λ k s. rw (map_get-map_set_self k _ s);
  others = λ k j s h. rw (map_get-map_set k j _ s) (ground (arith, eq_iff k j));
}

has_revocation-append :
    (k : String) (m n : List (String × String))
    → has_revocation k (m ++ n) ≡ (has_revocation k m || has_revocation k n)
unfolding has_revocation
has_revocation-append k [] n = refl
has_revocation-append k ((j, r) ∷ m) n = ground (arith, has_revocation-append k m n)

has_revocation_single : (k reason : String) → has_revocation k ((k, reason) ∷ []) ≡ true
unfolding has_revocation
has_revocation_single k reason = rw (eq_refl k)

pub has_revocation-insert_revocation :
    (k reason : String) (m : List (String × String))
    → has_revocation k (insert_revocation k reason m) ≡ true
unfolding insert_revocation
has_revocation-insert_revocation k reason m =
    ground (arith, has_revocation-append k m ((k, reason) ∷ []), has_revocation_single k reason)

pub has_revocation-stays :
    (k j reason : String) (m : List (String × String))
    → has_revocation k m ≡ true
    → has_revocation k (insert_revocation j reason m) ≡ true
unfolding insert_revocation
has_revocation-stays k j reason m h = ground (arith, has_revocation-append k m ((j, reason) ∷ []))

pub postgres_revocations-IsRevocationStore : IsRevocationStore postgres_revocations
postgres_revocations-IsRevocationStore = record {
  revoked = has_revocation-insert_revocation;
  stays = has_revocation-stays;
}

module _ (k : String) where
  postgres_returned :
      (s : List (String × ℕ)) → (postgres_record_redemption k s).0 ≡ postgres_get_count k s + 1
  unfolding postgres_get_count postgres_record_redemption
  postgres_returned [] = refl
  postgres_returned ((j, n) ∷ s) = ground (arith, postgres_returned s)

  postgres_counted :
      (s : List (String × ℕ))
      → postgres_get_count k (postgres_record_redemption k s).1 ≡ postgres_get_count k s + 1
  unfolding postgres_get_count postgres_record_redemption
  postgres_counted [] = rw (eq_refl k)
  postgres_counted ((j, n) ∷ s) = ground (arith, postgres_counted s)

  postgres_others :
      (j : String) (s : List (String × ℕ))
      → k ≢ j
      → postgres_get_count j (postgres_record_redemption k s).1 ≡ postgres_get_count j s
  unfolding postgres_get_count postgres_record_redemption
  postgres_others j [] h = ground (arith, eq_iff k j)
  postgres_others j ((i, n) ∷ s) h = ground (arith, eq_iff i k, eq_iff i j, postgres_others j s h)

pub postgres_redemptions-IsRedemptionStore : IsRedemptionStore postgres_redemptions
postgres_redemptions-IsRedemptionStore = record {
  returned = postgres_returned;
  counted = postgres_counted;
  others = postgres_others;
}
