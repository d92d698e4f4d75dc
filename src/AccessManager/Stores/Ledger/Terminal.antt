-- ===== src/AccessManager/Stores/Ledger/Terminal.antt =====
-- The states of a grant over a series of operations on a store.
use beckn_data_commons.Base.{
  ℕ, String, true, ◌==◌, ◌≡◌, ◌≢◌, refl, arith, some, List, [], ◌∷◌, All, eq_iff, Bool-cases, inl,
  inr, ◌∙◌,
}
use beckn_data_commons.AccessManager.Types.{
  GrantStatus, issued, revoked, expired, GrantRecord, already_revoked, GrantStore,
}
use beckn_data_commons.AccessManager.Stores.Memory.{is_revoked}
use beckn_data_commons.AccessManager.Stores.Ledger.{
  IsGrantStore, change, revoked_record, swept_record,
}

-- What the service asks of its store.
pub data Operation : Type 0 where
  saving : GrantRecord → Operation
  revoking : String → String → Operation
  sweeping : ℕ → Operation

-- A grant that is saved has a new identifier.
abbrev pub IsNotSaved : String → Operation → Type 0
IsNotSaved grant_id (saving r) = r.grant_id ≢ grant_id
IsNotSaved grant_id _ = Unit

module _ {S : Type 0} (store : GrantStore S) where
  unfoldable pub apply : Operation → S → S
  apply (saving r) s = store.save r s
  apply (revoking k reason) s = (store.revoke k reason s).1
  apply (sweeping now_seconds) s = (store.mark_expired now_seconds s).1

  unfoldable pub apply_all : List Operation → S → S
  apply_all [] s = s
  apply_all (o ∷ os) s = apply_all os (apply o s)

  module _ (laws : IsGrantStore store) (grant_id : String) where
    apply-revoked :
        (o : Operation) (r : GrantRecord) (s : S)
        → IsNotSaved grant_id o
        → store.get grant_id s ≡ some r
        → is_revoked r.status ≡ true
        → (q : GrantRecord) × (store.get grant_id (apply o s) ≡ some q)
          × (is_revoked q.status ≡ true)
    unfolding apply
    apply-revoked (saving n) r s other found gone = (
      r,
      laws.saved_others n s grant_id (ground (arith, eq_iff n.grant_id grant_id)) ∙ found,
      gone,
    )
    apply-revoked (revoking k reason) r s other found gone =
        let after = laws.after_revoke k reason grant_id s in
        elim (Bool-cases (k == grant_id)) [
          | inl same ↦ (revoked_record r, after ∙ rw (same, found) refl, refl)
          | inr not_it ↦ (r, after ∙ rw (not_it, found) refl, gone)
        ]
    apply-revoked (sweeping now_seconds) r s other found gone =
        (r, laws.after_sweep now_seconds grant_id s ∙ rw found (kept r.status gone), gone)
      where
        kept :
            (t : GrantStatus)
            → is_revoked t ≡ true
            → change (swept_record now_seconds) (some (record r { status = t }))
              ≡ some (record r { status = t })
        kept revoked h = refl
        kept issued h = cc
        kept expired h = cc

    -- A revoked grant stays revoked in a store that keeps its promise, whatever operations follow
    -- that save no other grant under its identifier: revoking it again reports that.
    pub revoke-apply_all :
        (os : List Operation) (r : GrantRecord) (reason : String) (s : S)
        → All (IsNotSaved grant_id) os
        → store.get grant_id s ≡ some r
        → is_revoked r.status ≡ true
        → (store.revoke grant_id reason (apply_all os s)).0 ≡ already_revoked
    unfolding apply_all
    revoke-apply_all [] r reason s others found gone =
        laws.outcome grant_id reason s ∙ rw (found, gone) refl
    revoke-apply_all (o ∷ os) r reason s (other, others) found gone =
        let (q, found', gone') = apply-revoked o r s other found gone in
        revoke-apply_all os q reason (apply o s) others found' gone'
