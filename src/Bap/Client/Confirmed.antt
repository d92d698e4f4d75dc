-- ===== src/Bap/Client/Confirmed.antt =====
-- A confirmation, from the route of the platform to the Access Manager and back.
use mathlib.Core.Path.{subst}
use beckn_data_commons.Base.{ℕ, String, true, ◌≡◌, refl, ◌∙◌, ap, arith, Option, some, List}
use beckn_data_commons.Json.{Json, obj, field, end, wire}
use beckn_data_commons.Ed25519.{Noble}
use beckn_data_commons.Zod.{Zod}
use beckn_data_commons.Grant.Types.{SignedAccessGrant, IssueGrantRequest, signed_json}
use beckn_data_commons.Grant.Types.Wire.{
  wire_fields-public_key, wire_fields-scope_rest, wire-signed_json,
}
use beckn_data_commons.Grant.Parse.Sound.{RequestIsValid}
use beckn_data_commons.Http.{Request, Response, is_ok}
use beckn_data_commons.AccessManager.Types.{GrantStore}
use beckn_data_commons.AccessManager.Service
use beckn_data_commons.AccessManager.Service.{GrantServiceDeps, claims_for, record_of}
use beckn_data_commons.AccessManager.App.{Reply, answered, thrown, create_grant}
use beckn_data_commons.Bap.Orchestrator.{CallbackResponse}
use beckn_data_commons.Bap.Orchestrator.Journey.{
  BppEndpoint, ConfirmParams, single_result, confirm_request, request_json,
}
use beckn_data_commons.Bap.Orchestrator.Journey.Requests.{parse_issue_request-confirm_request}
use beckn_data_commons.Bap.Transport.{Sign, credential_of, issue_request, issue}
use beckn_data_commons.Bap.Client.{reply_for, confirm_reply}

wire-request_json :
    (params : ConfirmParams) (target : BppEndpoint)
    → wire (request_json (confirm_request params target))
      ≡ request_json (confirm_request params target)
unfolding wire request_json confirm_request
wire-request_json params target =
    let r = confirm_request params target in
    rw
      (
        wire_fields-public_key params.grantee.public_key,
        wire_fields-scope_rest r.scope.fields r.scope.max_downloads,
      )
      refl

-- The response carries the status and the JSON of a reply; the server answers a thrown error with 500.
abbrev pub Carries : Reply → Response → Type 0
Carries (answered code body) res = (res.status ≡ code) × (res.json ≡ some (wire body))
Carries thrown res = res.status ≡ 500

created_is_ok : (res : Response) → res.status ≡ 201 → is_ok res ≡ true
created_is_ok res h = ground arith

issue-answered :
    {N : Type 0} (fetch : Request → N → Option Response × N) (url : String) (sign : Sign)
    (credential : Option String) (request : IssueGrantRequest) (res : Response) (v : Json) (n : N)
    → credential_of sign (request_json request) ≡ some credential
    → (fetch (issue_request fetch url credential request) n).0 ≡ some res
    → is_ok res ≡ true
    → res.json ≡ some v
    → issue fetch url sign (request_json request) n
      ≡ (some v, (fetch (issue_request fetch url credential request) n).1)
unfolding issue
issue-answered fetch url sign credential request res v n signed answer good body =
    rw (signed, issue) (rw (answer, issue) (rw good (rw body refl)))

module _ {S : Type 0} (store : GrantStore S) (noble : Noble) (zod : Zod) (deps : GrantServiceDeps)
    (now_seconds : ℕ) (grant_id nonce : String) where
  create_grant-issue :
      (params : ConfirmParams) (target : BppEndpoint) (g : SignedAccessGrant) (s s' : S)
      → RequestIsValid zod (confirm_request params target)
      → Service.issue noble zod store deps
          (confirm_request params target)
          now_seconds
          grant_id
          nonce
          s
        ≡ some (g, s')
      → create_grant store noble zod deps
          (wire (request_json (confirm_request params target)))
          now_seconds
          grant_id
          nonce
          s
        ≡ (answered 201 (signed_json g), s')
  unfolding create_grant
  create_grant-issue params target g s s' valid made = rw (wire-request_json params target) (
      rw (parse_issue_request-confirm_request zod params target valid, create_grant)
        (rw (made, create_grant) refl))

  module _ (fetch : Request → S → Option Response × S) (url : String) (sign : Sign)
      (credential : Option String) (params : ConfirmParams) (target : BppEndpoint) (s : S) where
    -- the request to the Access Manager, and what its route does with the body
    abbrev pub called : Option Response × S
    called = fetch (issue_request fetch url credential (confirm_request params target)) s

    abbrev pub created : Reply × S
    created =
        create_grant store noble zod deps (wire (request_json (confirm_request params target)))
          now_seconds grant_id nonce s

    -- When the Access Manager's route creates the grant, the platform replies with the contract and
    -- with that grant.
    pub confirm_reply-issue :
        (late failed : String) (responses : List CallbackResponse) (contract : Json)
        (res : Response) (g : SignedAccessGrant) (s' : S)
        → RequestIsValid zod (confirm_request params target)
        → Service.issue noble zod store deps
            (confirm_request params target)
            now_seconds
            grant_id
            nonce
            s
          ≡ some (g, s')
        → single_result responses ≡ some contract
        → credential_of sign (request_json (confirm_request params target)) ≡ some credential
        → called.0 ≡ some res
        → Carries created.0 res
        → called.1 ≡ created.1
        → confirm_reply fetch url sign late failed params target responses s
          ≡ (answered 200 (obj (field "contract" contract (field "grant" (signed_json g) end))), s')
    unfolding confirm_reply reply_for
    confirm_reply-issue late failed responses contract res g s' valid made collected signed answer
          carried routed =
        let done = create_grant-issue params target g s s' valid made in
        let (code, body) = subst (λ (r : Reply × S). Carries r.0 res) done carried in
        let left : called.1 ≡ s' = routed ∙ ap (λ (r : Reply × S). r.1) done in
        let issued =
          issue-answered fetch url sign credential (confirm_request params target) res
            (signed_json g) s signed answer (created_is_ok res code)
            (body ∙ ap some (wire-signed_json g)) in
        rw (collected, reply_for)
          (rw (issued, reply_for) (rw (ap (λ (r : Option Json × S). r.1) issued) (rw left refl)))
