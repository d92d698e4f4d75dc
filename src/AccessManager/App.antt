-- ===== src/AccessManager/App.antt =====
-- services/access-manager/src/app.ts: the HTTP handlers. Fastify finds the handler, parses the request
-- and writes the reply.
pub mod Guarded
use beckn_data_commons.Base.{
  ℕ, String, Bool, true, false, Option, none, some, List, [], ◌∷◌, or_else, map,
}
use beckn_data_commons.Js.{nat}
use beckn_data_commons.Json.{Json, bool, num, str, arr, obj, from_items, field, end}
use beckn_data_commons.Ed25519.{Noble}
use beckn_data_commons.Zod.{Zod}
use beckn_data_commons.Domain.{license_text}
use beckn_data_commons.Grant.Types.{IssueGrantRequest, signed_json, scope_json}
use beckn_data_commons.Grant.Parse.{parse_issue_request}
use beckn_data_commons.Auth.Header.{present}
use beckn_data_commons.Auth.Message.{
  VerifyReason, missing, malformed, unknown_key, not_yet_valid, bad_signature, replayed,
  VerifyResult, accepted, refused,
}
use beckn_data_commons.Auth.Message
use beckn_data_commons.Auth.Participant.{Delivery}
use beckn_data_commons.AccessManager.Types.{
  GrantStatus, issued, revoked, expired, GrantRecord, RevokeOutcome, now_revoked, not_found,
  already_revoked, GrantStore,
}
use beckn_data_commons.AccessManager.Service.{GrantServiceDeps, issue, get, list, revoke}

-- `thrown` is an error that the handler throws, for Fastify to answer
pub data Reply : Type 0 where
  answered : ℕ → Json → Reply
  thrown : Reply

-- GET /health, at the time of the clock as a text
abbrev pub health : String → String → Json
health service_name timestamp = obj (
    field "status" (str "ok")
      (field "service" (str service_name) (field "timestamp" (str timestamp) end)))

-- GET /pubkey; the configuration has the names that the service was made with
abbrev pub pubkey : GrantServiceDeps → Json
pubkey deps = obj (
    field "amId" (str deps.am_id) (
      field "issuerKeyId" (str deps.issuer_key_id)
        (field "alg" (str "ed25519") (field "publicKey" (str deps.public_key) end))))

abbrev pub status_text : GrantStatus → String
status_text issued = "ISSUED"
status_text revoked = "REVOKED"
status_text expired = "EXPIRED"

abbrev pub verify_reason_text : VerifyReason → String
verify_reason_text missing = "missing"
verify_reason_text malformed = "malformed"
verify_reason_text unknown_key = "unknown-key"
verify_reason_text not_yet_valid = "not-yet-valid"
verify_reason_text Message.expired = "expired"
verify_reason_text replayed = "replayed"
verify_reason_text bad_signature = "bad-signature"

unfoldable pub record_json : GrantRecord → Json
record_json r = obj (
    field "grantId" (str r.grant_id) (
      field "granteeId" (str r.grantee_id) (
        field "bppId" (str r.bpp_id) (
          field "resourceId" (str r.resource_id) (
            field "offerId" (str r.offer_id) (
              field "scope" (scope_json r.scope) (
                field "licenseClass" (str (license_text r.license)) (
                  field "purpose" (str r.purpose) (
                    field "transactionId" (str r.transaction_id) (
                      field "issuedAt" (num (nat r.issued_at)) (
                        field "expiresAt" (num (nat r.expires_at)) (
                          field "status" (str (status_text r.status))
                            (field "signedGrant" (signed_json r.signed_grant) end)))))))))))))

abbrev not_found_json : Json
not_found_json = obj (field "error" (str "not-found") end)

abbrev outcome_text : RevokeOutcome → String
outcome_text now_revoked = "revoked"
outcome_text not_found = "not-found"
outcome_text already_revoked = "already-revoked"

abbrev revoked_json : String → RevokeOutcome → Json
revoked_json grant_id outcome = obj (
    field "grantId" (str grant_id)
      (field "status" (str "REVOKED") (field "outcome" (str (outcome_text outcome)) end)))

-- `verifyIssue`, where it is wired, with the state of the verifier
abbrev pub VerifyIssue : Type 0 → Type 0
VerifyIssue A = Option (Delivery → A → VerifyResult × A)

module _ {S : Type 0} (store : GrantStore S) where
  module _ (noble : Noble) (zod : Zod) (deps : GrantServiceDeps) where
    -- `now` is read after the authentication; the two texts are the random identifiers
    unfoldable pub create_grant : Json → ℕ → String → String → S → Reply × S
    create_grant body now_seconds grant_id nonce s = elim (parse_issue_request zod body) [
      | none ↦ (
        answered 400 (
            obj (
              field "error" (str "invalid-request")
                (field "detail" (str (zod.message "IssueGrantRequest" body)) end))),
        s,
      )
      | some req ↦ elim (issue noble zod store deps req now_seconds grant_id nonce s) [
        | none ↦ (thrown, s)
        | some r ↦ (answered 201 (signed_json r.0), r.1)
      ]
    ]

    -- POST /grants
    unfoldable pub post_grants :
        {A : Type 0} → VerifyIssue A → Delivery → ℕ → String → String → A → S → Reply × A × S
    post_grants none d now_seconds grant_id nonce a s =
        let (reply, s') = create_grant d.body now_seconds grant_id nonce s in (reply, a, s')
    post_grants (some verify_issue) d now_seconds grant_id nonce a s =
        let (auth, a') = verify_issue d a in
        elim auth [
          | refused reason ↦ (
            answered 401 (
                obj (
                  field "error" (str "unauthenticated")
                    (field "reason" (str (verify_reason_text reason)) end))),
            a',
            s,
          )
          | accepted key_id ↦
              let (reply, s') = create_grant d.body now_seconds grant_id nonce s in (reply, a', s')
        ]

  -- GET /grants/:grantId
  unfoldable pub get_grant : String → S → Reply
  get_grant grant_id s = elim (get store grant_id s) [
    | none ↦ answered 404 not_found_json
    | some r ↦ answered 200 (record_json r)
  ]

  -- GET /grants?grantee=…
  unfoldable pub get_grants : Option String → S → Reply
  get_grants grantee s = elim (present grantee) [
    | none ↦ answered 400 (
        obj (
          field "error" (str "bad-request")
            (field "detail" (str "grantee query param is required") end)))
    | some id ↦ answered 200 (
        obj (
          field "grantee" (str id)
            (field "grants" (arr (from_items (map record_json (list store id s)))) end)))
  ]

  -- POST /grants/:grantId/revoke, where the reason is `undefined` in a body without one
  unfoldable pub post_revoke : String → Option String → S → Reply × S
  post_revoke grant_id reason s =
      let (outcome, s') = revoke store grant_id (or_else reason "unspecified") s in
      elim outcome [
        | not_found ↦ (answered 404 not_found_json, s')
        | already_revoked ↦ (answered 409 (revoked_json grant_id already_revoked), s')
        | now_revoked ↦ (answered 200 (revoked_json grant_id now_revoked), s')
      ]
