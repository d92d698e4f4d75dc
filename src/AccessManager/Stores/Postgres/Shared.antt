-- ===== src/AccessManager/Stores/Postgres/Shared.antt =====
-- The table `grant_revocations`, which the providers read.
use beckn_data_commons.Base.{
  ℕ, String, true, false, ◌==◌, ◌≡◌, ◌≢◌, ◌⊎◌, inl, inr, refl, sym, ap, ◌∙◌, arith, Option, none,
  some, List, [], ◌∷◌, All, Option-cases, Bool-cases, eq_iff,
}
use beckn_data_commons.AccessManager.Types.{GrantRecord, not_found}
use beckn_data_commons.AccessManager.Stores.Memory.{is_revoked}
use beckn_data_commons.AccessManager.Stores.Ledger.{change, swept_record}
use beckn_data_commons.AccessManager.Stores.Ledger.Terminal.{
  Operation, saving, revoking, sweeping, apply, apply_all,
}
use beckn_data_commons.AccessManager.Stores.Postgres.{
  Tables, empty, row_of, insert_row, has_revocation, save, get, revoke, mark_expired,
  postgres_store,
}
use beckn_data_commons.AccessManager.Stores.Postgres.Laws.{postgres_store-IsGrantStore}
use beckn_data_commons.Bpp.Stores.Laws.{has_revocation-insert_revocation, has_revocation-stays}

-- Every grant whose row says `REVOKED` has a row in `grant_revocations`.
pub record RevokedAreListed (t : Tables) : Type 0 where
  pub listed :
      (j : String) (r : GrantRecord)
      → get j t ≡ some r
      → is_revoked r.status ≡ true
      → has_revocation j t.grant_revocations ≡ true

-- A grant is saved with another status than `REVOKED`.
abbrev pub IsFresh : Operation → Type 0
IsFresh (saving r) = is_revoked r.status ≡ false
IsFresh _ = Unit

-- A row after an insertion is the new one or was there.
row_of-insert_row-cases :
    (n : GrantRecord) (rows : List GrantRecord) (j : String) (r : GrantRecord)
    → row_of j (insert_row n rows) ≡ some r
    → (n ≡ r) ⊎ (row_of j rows ≡ some r)
unfolding row_of insert_row
row_of-insert_row-cases n [] j r h = ground arith
row_of-insert_row-cases n (s ∷ rows) j r h = ground (arith, row_of-insert_row-cases n rows j r)

change_revoked :
    (now_seconds : ℕ) (o : Option GrantRecord) (r : GrantRecord)
    → change (swept_record now_seconds) o ≡ some r
    → is_revoked r.status ≡ true
    → o ≡ some r
change_revoked now_seconds none r h k = cc
change_revoked now_seconds (some q) r h k = ground arith

module _ (t : Tables) (inv : RevokedAreListed t) (j : String) (r : GrantRecord)
    (gone : is_revoked r.status ≡ true) where
  listed-save :
      (n : GrantRecord)
      → is_revoked n.status ≡ false
      → get j (save n t) ≡ some r
      → has_revocation j (save n t).grant_revocations ≡ true
  unfolding get save
  listed-save n fresh h = elim (row_of-insert_row-cases n t.grants j r h) [
    | inl same ↦ cc (ap (λ (q : GrantRecord). is_revoked q.status) same, gone, fresh)
    | inr before ↦ inv.listed j r before gone
  ]

  listed-revoke :
      (k reason : String)
      → get j (revoke k reason t).1 ≡ some r
      → has_revocation j (revoke k reason t).1.grant_revocations ≡ true
  unfolding get revoke
  listed-revoke k reason h = elim (Option-cases (row_of k t.grants)) [
    | inl absent ↦ rw (absent, revoke) (inv.listed j r (rw (absent, revoke) at h) gone)
    | inr (q, found) ↦ elim (Bool-cases (is_revoked q.status)) [
      | inl old ↦
          rw (found, revoke) (rw old (inv.listed j r (rw old at (rw (found, revoke) at h)) gone))
      | inr new ↦
          rw (found, revoke)
            (rw new (elim (Bool-cases (k == j)) [
              | inl same ↦
                  rw ((eq_iff k j).0 same)
                    (has_revocation-insert_revocation j reason t.grant_revocations)
              | inr other ↦
                  has_revocation-stays j k reason t.grant_revocations
                    (inv.listed j r (before other) gone)
            ]))
    ]
  ]
    where
      before : (k == j) ≡ false → get j t ≡ some r
      before other = rw other at (sym (postgres_store-IsGrantStore.after_revoke k reason j t) ∙ h)

  listed-mark_expired :
      (now_seconds : ℕ)
      → get j (mark_expired now_seconds t).1 ≡ some r
      → has_revocation j (mark_expired now_seconds t).1.grant_revocations ≡ true
  unfolding mark_expired
  listed-mark_expired now_seconds h =
      inv.listed j r
        (change_revoked now_seconds (get j t) r
          (sym (postgres_store-IsGrantStore.after_sweep now_seconds j t) ∙ h) gone)
        gone

apply-RevokedAreListed :
    (o : Operation) (t : Tables)
    → IsFresh o
    → RevokedAreListed t
    → RevokedAreListed (apply postgres_store o t)
unfolding apply
apply-RevokedAreListed (saving n) t fresh inv = record {
  listed = λ j r h gone. listed-save t inv j r gone n fresh h;
}
apply-RevokedAreListed (revoking k reason) t fresh inv = record {
  listed = λ j r h gone. listed-revoke t inv j r gone k reason h;
}
apply-RevokedAreListed (sweeping now_seconds) t fresh inv = record {
  listed = λ j r h gone. listed-mark_expired t inv j r gone now_seconds h;
}

pub apply_all-RevokedAreListed :
    (os : List Operation) (t : Tables)
    → All IsFresh os
    → RevokedAreListed t
    → RevokedAreListed (apply_all postgres_store os t)
unfolding apply_all
apply_all-RevokedAreListed [] t fresh inv = inv
apply_all-RevokedAreListed (o ∷ os) t (h, hs) inv =
    apply_all-RevokedAreListed os _ hs (apply-RevokedAreListed o t h inv)

pub empty-RevokedAreListed : RevokedAreListed empty
unfolding get row_of
empty-RevokedAreListed = record { listed = λ j r h gone. cc }

-- A grant that the service answers it has revoked, now or before, is in `grant_revocations`.
pub revoke-listed :
    (t : Tables) (k reason : String)
    → RevokedAreListed t
    → (revoke k reason t).0 ≢ not_found
    → has_revocation k (revoke k reason t).1.grant_revocations ≡ true
unfolding revoke get
revoke-listed t k reason inv known = elim (Option-cases (row_of k t.grants)) [
  | inl absent ↦ absurd (known (rw (absent, revoke) refl))
  | inr (q, found) ↦ elim (Bool-cases (is_revoked q.status)) [
    | inl old ↦ rw (found, revoke) (rw old (inv.listed k q found old))
    | inr new ↦
        rw (found, revoke) (rw new (has_revocation-insert_revocation k reason t.grant_revocations))
  ]
]

-- In the database, after any series of operations from empty tables in which no grant is saved as
-- revoked, a grant whose row says `REVOKED` has a row in `grant_revocations`, which the providers
-- read.
pub apply_all-listed :
    (os : List Operation) (j : String) (r : GrantRecord)
    → All IsFresh os
    → get j (apply_all postgres_store os empty) ≡ some r
    → is_revoked r.status ≡ true
    → has_revocation j (apply_all postgres_store os empty).grant_revocations ≡ true
apply_all-listed os j r fresh found gone =
    (apply_all-RevokedAreListed os empty fresh empty-RevokedAreListed).listed j r found gone
