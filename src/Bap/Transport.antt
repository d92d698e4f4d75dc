-- ===== src/Bap/Transport.antt =====
-- services/bap/src/transport.ts: the calls of the providers and of the Access Manager. An error that is
-- thrown is `none`. Signing is a parameter; one that throws ends the call before it is made.
use beckn_data_commons.Base.{String, Option, none, some, if◌then◌else◌}
use beckn_data_commons.Js.Text.{◌<>◌}
use beckn_data_commons.Js.Uri.{without_slash}
use beckn_data_commons.Json.{Json}
use beckn_data_commons.Auth.Header.{present}
use beckn_data_commons.Grant.Types.{IssueGrantRequest}
use beckn_data_commons.Http.{Request, Response, is_ok, post, then_read}
use beckn_data_commons.Bap.Orchestrator.Journey.{request_json}

-- `sign`, where it is wired
abbrev pub Sign : Type 0
Sign = Option (Json → Option String)

-- `sign ? await sign(body) : undefined`, and the header for it; `none` is an error that `sign` throws
unfoldable pub credential_of : Sign → Json → Option (Option String)
credential_of none body = some none
credential_of (some sign) body = elim (sign body) [
  | none ↦ none
  | some text ↦ elim (present (some text)) [
    | none ↦ some none
    | some authorization ↦ some (some authorization)
  ]
]

module _ {N : Type 0} (fetch : Request → N → Option Response × N) where
  -- `httpBppTransport.send`
  unfoldable pub send : String → String → Json → Option String → N → Option (Unit {0}) × N
  send uri action envelope authorization n =
      then_read (λ res. if is_ok res then some tt else none)
        (fetch (post authorization (without_slash uri <> "/" <> action) envelope) n)

  -- the send of one target of a fan-out
  unfoldable pub send_signed : Sign → String → String → Json → N → Option (Unit {0}) × N
  send_signed sign uri action envelope n = elim (credential_of sign envelope) [
    | none ↦ (none, n)
    | some authorization ↦ send uri action envelope authorization n
  ]

  abbrev pub issue_request : String → Option String → IssueGrantRequest → Request
  issue_request access_manager_url authorization request =
      post authorization (access_manager_url <> "/grants") (request_json request)

  -- `httpAmClient(…).issue`, whose answer is JSON
  unfoldable pub issue : String → Sign → Json → N → Option Json × N
  issue access_manager_url sign body n = elim (credential_of sign body) [
    | none ↦ (none, n)
    | some authorization ↦
        then_read (λ res. if is_ok res then res.json else none)
          (fetch (post authorization (access_manager_url <> "/grants") body) n)
  ]
