-- ===== src/AccessManager/App/Guarded.antt =====
-- What guards the store behind the handlers.
use beckn_data_commons.Base.{
  ℕ, String, Bool, false, ◌≡◌, ◌⊎◌, inl, inr, refl, Option, none, some, List, All, Option-cases,
  Bool-cases, or_else, eqb, if◌then◌else◌,
}
use beckn_data_commons.Js.{Number}
use beckn_data_commons.Json.{Json}
use beckn_data_commons.Ed25519.{Noble}
use beckn_data_commons.Zod.{Zod}
use beckn_data_commons.Grant.Types.{SignedAccessGrant, IssueGrantRequest, signed_json}
use beckn_data_commons.Grant.Parse.{parse_issue_request}
use beckn_data_commons.Auth.ReplayCache.{ReplayCache}
use beckn_data_commons.Auth.Header.{ParsedHeader}
use beckn_data_commons.Auth.Message.{VerifyResult, accepted, replay_key}
use beckn_data_commons.Auth.Message.Accepted.{VerifyResult-cases}
use beckn_data_commons.Auth.Participant.{Participant, Delivery, participant_verify, after}
use beckn_data_commons.Auth.Participant.NoReplay.{IsBefore, parsed, accepted_once}
use beckn_data_commons.AccessManager.Types.{GrantRecord, GrantStore}
use beckn_data_commons.AccessManager.Stores.Memory.{is_revoked}
use beckn_data_commons.AccessManager.Stores.Ledger.{IsGrantStore}
use beckn_data_commons.AccessManager.Service.{GrantServiceDeps, issue}
use beckn_data_commons.AccessManager.App.{
  Reply, answered, thrown, create_grant, post_grants, post_revoke,
}

abbrev pub is_created : Reply → Bool
is_created (answered code body) = eqb code 201
is_created thrown = false

module _ {S : Type 0} (store : GrantStore S) (noble : Noble) (zod : Zod) (deps : GrantServiceDeps)
    (now_seconds : ℕ) (grant_id nonce : String) where
  -- A request that met its schema, and what was issued for it.
  abbrev pub IsIssued : Json → S → Reply × S → Type 0
  IsIssued body s r =
      (req : IssueGrantRequest) × (g : SignedAccessGrant) × (parse_issue_request zod body
        ≡ some req)
      × (issue noble zod store deps req now_seconds grant_id nonce s ≡ some (g, r.1))
      × (r.0 ≡ answered 201 (signed_json g))

  create_grant-IsIssued :
      (body : Json) (s : S)
      → ((is_created (create_grant store noble zod deps body now_seconds grant_id nonce s).0
            ≡ false)
          × ((create_grant store noble zod deps body now_seconds grant_id nonce s).1 ≡ s))
        ⊎ IsIssued body s (create_grant store noble zod deps body now_seconds grant_id nonce s)
  unfolding create_grant
  create_grant-IsIssued body s = elim (Option-cases (parse_issue_request zod body)) [
    | inl bad ↦ rw (bad, create_grant) (inl (refl, refl))
    | inr (req, good) ↦
        elim (Option-cases (issue noble zod store deps req now_seconds grant_id nonce s)) [
          | inl failed ↦ rw (good, create_grant) (rw failed (inl (refl, refl)))
          | inr ((g, s'), made) ↦ rw (good, create_grant) (rw made (inr (req, g, refl, made, refl)))
        ]
  ]

  module _ {A : Type 0} (verify_issue : Delivery → A → VerifyResult × A) (d : Delivery) (a : A)
      (s : S) where
    -- `POST /grants` behind a verifier: either the reply is not 201 and the store is as it was, or
    -- the verifier has accepted the message, the body meets the schema of a request, and the reply
    -- and the new store are those of the service's `issue` for this request.
    pub post_grants-guarded :
        let r =
          post_grants store noble zod deps (some verify_issue) d now_seconds grant_id nonce a s in
        ((is_created r.0 ≡ false) × (r.2 ≡ s))
        ⊎ ((key_id : String) × ((verify_issue d a).0 ≡ accepted key_id)
            × IsIssued d.body s (r.0, r.2))
    unfolding post_grants
    post_grants-guarded = elim (VerifyResult-cases (verify_issue d a).0) [
      | inr (reason, bad) ↦ rw (bad, post_grants) (inl (refl, refl))
      | inl (key_id, good) ↦ elim (create_grant-IsIssued d.body s) [
        | inl (other, same) ↦ rw (good, post_grants) (inl (other, same))
        | inr done ↦ rw (good, post_grants) (inr (key_id, refl, done))
      ]
    ]

-- Two requests with one sender and one nonce do not both mint a grant, however many messages the
-- Access Manager verifies between them, as long as its clock has not passed the expiry of the first:
-- when the first was accepted, the second gets no 201 and leaves the store as it is.
pub post_grants-once :
    {S : Type 0} (store : GrantStore S) (noble : Noble) (zod : Zod) (deps : GrantServiceDeps)
    (other : String → Number) (me : Participant) (first second : Delivery) (between : List Delivery)
    (cache : ReplayCache) (k : String) (p q : ParsedHeader) (now_seconds : ℕ)
    (grant_id nonce : String) (s : S)
    → parsed noble other me first ≡ some p
    → parsed noble other me second ≡ some q
    → replay_key p ≡ replay_key q
    → All (IsBefore p.expires) between
    → IsBefore p.expires second
    → (participant_verify noble other me first cache).0 ≡ accepted k
    → (let r =
          post_grants store noble zod deps
            (some (participant_verify noble other me))
            second
            now_seconds
            grant_id
            nonce
            (after noble other me between (participant_verify noble other me first cache).1)
            s in
        (is_created r.0 ≡ false) × (r.2 ≡ s))
post_grants-once store noble zod deps other me first second between cache k p q now_seconds grant_id
      nonce s e e' same quiet quiet' h =
    elim (post_grants-guarded store noble zod deps now_seconds grant_id nonce
      (participant_verify noble other me) second
      (after noble other me between (participant_verify noble other me first cache).1) s) [
        | inl kept ↦ kept
        | inr (j, good, _) ↦ absurd (
            accepted_once noble other me first second between cache k j p q e e' same quiet quiet' h
              good)
      ]

abbrev pub code_of : Reply → ℕ
code_of (answered code body) = code
code_of thrown = 500

-- the code for a grant that the store has or has not
abbrev pub revoke_code : Option GrantRecord → ℕ
revoke_code none = 404
revoke_code (some r) = if is_revoked r.status then 409 else 200

-- `POST /grants/:grantId/revoke` answers 404 for a grant that the store does not have, 409 for one
-- that is revoked, and 200 for any other, with a store that keeps its promise.
pub post_revoke-code :
    {S : Type 0} (store : GrantStore S) (grant_id : String) (reason : Option String) (s : S)
    → IsGrantStore store
    → code_of (post_revoke store grant_id reason s).0 ≡ revoke_code (store.get grant_id s)
unfolding post_revoke
post_revoke-code store grant_id reason s laws =
    let said = laws.outcome grant_id (or_else reason "unspecified") s in
    elim (Option-cases (store.get grant_id s)) [
      | inl absent ↦ rw absent (rw (rw absent at said, post_revoke) refl)
      | inr (r, found) ↦ elim (Bool-cases (is_revoked r.status)) [
        | inl old ↦ rw found (rw (rw old at (rw found at said), post_revoke, old) refl)
        | inr new ↦ rw found (rw (rw new at (rw found at said), post_revoke, new) refl)
      ]
    ]
