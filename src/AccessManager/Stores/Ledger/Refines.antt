-- ===== src/AccessManager/Stores/Ledger/Refines.antt =====
-- A store of grants against an abstract ledger, which forgets how the records are kept.
use beckn_data_commons.Base.{
  ℕ, refl, ltb, String, ◌==◌, ◌≡◌, Option, none, some, List, [], ◌∷◌, ◌∙◌, ap, eq_iff, Bool-cases,
  inl, inr, if◌then◌else◌,
}
use mathlib.Core.Path.{fun_ext}
use beckn_data_commons.AccessManager.Types.{
  GrantStatus, issued, revoked, expired, RevokeOutcome, now_revoked, not_found, already_revoked,
  GrantRecord, GrantStore,
}
use beckn_data_commons.AccessManager.Stores.Ledger.{
  IsGrantStore, change, revoked_record, swept_record, outcome_of,
}
use beckn_data_commons.AccessManager.Stores.Ledger.Terminal.{
  Operation, saving, revoking, sweeping, apply, apply_all,
}

-- what is known of each grant id
abbrev pub Ledger : Type 0
Ledger = String → Option GrantRecord

-- a grant that is issued and whose lifetime is over before `now_seconds` has expired
abbrev pub lapse : ℕ → GrantRecord → GrantRecord
lapse now_seconds r = elim r.status [
  | issued ↦ if ltb r.expires_at now_seconds then record r { status = expired } else r
  | revoked ↦ r
  | expired ↦ r
]

-- what a revocation answers of what is known
abbrev pub answer : Option GrantRecord → RevokeOutcome
answer none = not_found
answer (some r) = elim r.status [
  | issued ↦ now_revoked
  | revoked ↦ already_revoked
  | expired ↦ now_revoked
]

abbrev pub known_with : (GrantRecord → GrantRecord) → Option GrantRecord → Option GrantRecord
known_with f none = none
known_with f (some r) = some (f r)

abbrev pub ledger_step : Operation → Ledger → Ledger
ledger_step (saving r) known j = if r.grant_id == j then some r else known j
ledger_step (revoking k reason) known j =
    if k == j then known_with (λ r. record r { status = revoked }) (known j) else known j
ledger_step (sweeping now_seconds) known j = known_with (lapse now_seconds) (known j)

abbrev pub ledger_after : List Operation → Ledger → Ledger
ledger_after [] known = known
ledger_after (o ∷ os) known = ledger_after os (ledger_step o known)

abbrev pub IsNewIn : Operation → Ledger → Type 0
IsNewIn (saving r) known = known r.grant_id ≡ none
IsNewIn _ known = Unit

-- Each record that is saved has an id that is not known yet.
abbrev pub AreNewIn : List Operation → Ledger → Type 0
AreNewIn [] known = Unit
AreNewIn (o ∷ os) known = IsNewIn o known × AreNewIn os (ledger_step o known)

swept_record-lapse :
    (now_seconds : ℕ) (o : Option GrantRecord)
    → change (swept_record now_seconds) o ≡ known_with (lapse now_seconds) o
swept_record-lapse now_seconds none = refl
swept_record-lapse now_seconds (some r) = go r.status
  where
    go :
        (t : GrantStatus)
        → change (swept_record now_seconds) (some (record r { status = t }))
          ≡ known_with (lapse now_seconds) (some (record r { status = t }))
    go issued = refl
    go revoked = refl
    go expired = refl

revoked_record-known_with :
    (o : Option GrantRecord)
    → change revoked_record o ≡ known_with (λ r. record r { status = revoked }) o
revoked_record-known_with none = refl
revoked_record-known_with (some r) = refl

outcome_of-answer : (o : Option GrantRecord) → outcome_of o ≡ answer o
outcome_of-answer none = refl
outcome_of-answer (some r) = go r.status
  where
    go :
        (t : GrantStatus)
        → outcome_of (some (record r { status = t })) ≡ answer (some (record r { status = t }))
    go issued = refl
    go revoked = refl
    go expired = refl

module _ {S : Type 0} (store : GrantStore S) (laws : IsGrantStore store) where
  abbrev view : S → Ledger
  view s j = store.get j s

  view-apply :
      (o : Operation) (s : S) (j : String)
      → IsNewIn o (view s)
      → store.get j (apply store o s) ≡ ledger_step o (view s) j
  unfolding apply
  view-apply (saving r) s j new = elim (Bool-cases (r.grant_id == j)) [
    | inl same ↦ rw same (rw (← (eq_iff r.grant_id j).0 same) (laws.saved r s new))
    | inr other ↦ rw other (laws.saved_others r s j other)
  ]
  view-apply (revoking k reason) s j new =
      laws.after_revoke k reason j s
      ∙ ap (λ o. if k == j then o else store.get j s) (revoked_record-known_with (store.get j s))
  view-apply (sweeping now_seconds) s j new =
      laws.after_sweep now_seconds j s ∙ swept_record-lapse now_seconds (store.get j s)

  view-apply_all :
      (os : List Operation) (s : S) (known : Ledger)
      → view s ≡ known
      → AreNewIn os known
      → view (apply_all store os s) ≡ ledger_after os known
  unfolding apply_all
  view-apply_all [] s known same new = same
  view-apply_all (o ∷ os) s known same (new, later) =
      view-apply_all os (apply store o s) (ledger_step o known)
        (fun_ext (λ j. view-apply o s j (rw same new)) ∙ ap (ledger_step o) same) later

  -- After any operations that save new grants, a store that keeps its promise answers `get` and
  -- `revoke` as the abstract ledger does that starts with the same grants.
  pub get-apply_all :
      (os : List Operation) (s : S) (known : Ledger) (grant_id reason : String)
      → ((j : String) → store.get j s ≡ known j)
      → AreNewIn os known
      → (store.get grant_id (apply_all store os s) ≡ ledger_after os known grant_id)
        × ((store.revoke grant_id reason (apply_all store os s)).0
            ≡ answer (ledger_after os known grant_id))
  get-apply_all os s known grant_id reason same new =
      let now = ap (λ (l : Ledger). l grant_id) (view-apply_all os s known (fun_ext same) new) in
      (
        now,
        laws.outcome grant_id reason (apply_all store os s)
            ∙ ap outcome_of now
            ∙ outcome_of-answer (ledger_after os known grant_id),
      )
