-- ===== src/Bpp/App.antt =====
-- services/bpp/src/app.ts: the Beckn routes and the download route. Fastify finds the handler, parses
-- the request and writes the reply; the rate limit is its plugin's.
pub mod Dispatched
use Prim.Native.Char.{Char, code}
use Prim.Native.String
use beckn_data_commons.Base.{
  ℕ, ◌/◌, String, Bool, true, false, not, ◌==◌, ◌||◌, eqb, Option, none, some, List, [], ◌∷◌, map,
  select, is_some, or_else, if◌then◌else◌, ◌>>=◌,
}
use beckn_data_commons.Js.{Number}
use beckn_data_commons.Js.Space.{trim_start, trim_end, trim}
use beckn_data_commons.Js.Text.{◌<>◌, split}
use beckn_data_commons.Js.Uri.{without_slash}
use beckn_data_commons.Json.{Json, undefined, str, obj, Fields, field, end, get, nullish}
use beckn_data_commons.Json.Texts.{string_of}
use beckn_data_commons.Ed25519.{Noble}
use beckn_data_commons.Http.{Request, post}
use beckn_data_commons.Bap.Transport.{Sign, credential_of}
use beckn_data_commons.Zod.{Zod}
use beckn_data_commons.Auth.Header.{present}
use beckn_data_commons.Auth.Message.{VerifyResult, accepted, refused}
use beckn_data_commons.Auth.Participant.{Delivery}
use beckn_data_commons.Beckn.{BecknContext, beckn_context, ack}
use beckn_data_commons.Grant.Types.{AccessGrantClaims}
use beckn_data_commons.Grant.Verify.{Requested}
use beckn_data_commons.AccessManager.App.{Reply, answered, verify_reason_text}
use beckn_data_commons.Bpp.Catalog.{Catalog}
use beckn_data_commons.Bpp.Builders.{BuildDeps, Response}
use beckn_data_commons.Bpp.Stores.{RevocationStore, RedemptionStore}
use beckn_data_commons.Bpp.Download.{
  ResolvedFile, FileResolver, RedeemParams, RedeemResult, served, refused, RedeemReason,
  redeem_grant,
}
use beckn_data_commons.Bpp.Download.Presented.{parse_presented_grant}
use beckn_data_commons.Bpp.Download

-- A callback that is sent once the reply is given: where, and what.
pub record Dispatch : Type 0 where
  pub url : String
  pub payload : Response

abbrev nack : String → String → Json
nack error_code message = obj (
    field "message" (obj (field "status" (str "NACK") end))
      (field "error" (obj (field "code" (str error_code) (field "message" (str message) end))) end))

abbrev pub callback_url : BecknContext → Response → String
callback_url ctx response =
    String.◌++◌ (without_slash ctx.bap_uri)
      (String.◌++◌ "/" (string_of (get "action" (obj response.context))))

module _ (zod : Zod) (build : BecknContext → Json → BuildDeps → Response) (deps : BuildDeps) where
  -- the parsed context is built for and acknowledged
  unfoldable pub respond : Json → Reply × Option Dispatch
  respond body = elim (beckn_context zod (get "context" body)) [
    | none ↦ (
      answered 400 (nack "INVALID_CONTEXT" (zod.message "BecknContext" (get "context" body))),
      none,
    )
    | some ctx ↦
        let response = build ctx (get "message" body) deps in
        (
          answered 200 (ack ctx.message_id),
          some (record { url = callback_url ctx response; payload = response }),
        )
  ]

  -- POST /discover, /select, /init and /confirm, with the state of the verifier
  unfoldable pub beckn_route :
      {A : Type 0}
      → Option (Delivery → A → VerifyResult × A)
      → Delivery
      → A
      → Reply × Option Dispatch × A
  beckn_route none d a =
      let (reply, dispatch) = respond (nullish d.body (obj end)) in (reply, dispatch, a)
  beckn_route (some verify_request) d a =
      let body = nullish d.body (obj end) in
      let (auth, a') = verify_request (record d { body = body }) a in
      elim auth [
        | VerifyResult.refused reason ↦
            (answered 401 (nack "UNAUTHENTICATED" (verify_reason_text reason)), none, a')
        | accepted key_id ↦ let (reply, dispatch) = respond body in (reply, dispatch, a')
      ]

-- the envelope of a callback, as it is signed and posted
abbrev pub response_json : Response → Json
response_json response =
    obj (field "context" (obj response.context) (field "message" response.message end))

-- What a route does once it has replied, with `httpDispatch`: the request that delivers the callback,
-- signed where `signCallback` is wired. An error that the signing throws is logged, and nothing is sent.
unfoldable pub callback_request : Sign → Dispatch → Option Request
callback_request sign_callback dispatch = do
  authorization ← credential_of sign_callback (response_json dispatch.payload)
  some (post authorization dispatch.url (response_json dispatch.payload))

-- GET /health, at the time of the clock as a text
abbrev pub health : String → String → String → Json
health service_name bpp_id timestamp = obj (
    field "status" (str "ok") (
      field "service" (str service_name)
        (field "bppId" (str bpp_id) (field "timestamp" (str timestamp) end))))

-- `q.fields ? q.fields.split(',').map(trim).filter(Boolean) : undefined`
unfoldable pub fields_of_query : Option String → Option (List String)
unfolding split trim_start trim_end
fields_of_query fields = elim (present fields) [
  | none ↦ none
  | some text ↦ some (select (λ f. not (f == "")) (map trim (split b',' text)))
]

-- the query of GET /download
pub record DownloadQuery : Type 0 where
  pub resource_id : Option String
  pub offer_id : Option String
  pub fields : Option String

-- what the route reads of the configuration, and the resolver of the catalog
pub record DownloadConfig : Type 0 where
  pub bpp_id : String
  pub access_manager_public_key : String
  pub clock_skew_seconds : ℕ
  pub resolve_file : FileResolver

-- the file that is sent, with the grant and the count in the headers, or an error
pub data DownloadReply : Type 0 where
  sent : ResolvedFile → String → ℕ → DownloadReply
  grant_required : DownloadReply
  resource_id_required : DownloadReply
  failed : ℕ → RedeemReason → Option String → DownloadReply

-- the header `content-disposition` of a file that is sent
abbrev pub disposition : ResolvedFile → String
disposition file = "attachment; filename=\"" <> file.filename <> "\""

abbrev pub download_code : DownloadReply → ℕ
download_code (sent file grant_id count) = 200
download_code grant_required = 401
download_code resource_id_required = 400
download_code (failed status reason detail) = status

abbrev pub reply_of : RedeemResult → DownloadReply
reply_of (served claims file count) = sent file claims.grant_id count
reply_of (refused status reason detail) = failed status reason detail

abbrev pub params_of : DownloadConfig → DownloadQuery → Json → String → ℕ → RedeemParams
params_of config q grant resource_id now_ms = record {
  signed_grant = grant;
  requested = record {
    resource_id = resource_id;
    offer_id = q.offer_id;
    fields = fields_of_query q.fields;
  };
  bpp_id = config.bpp_id;
  access_manager_public_key = config.access_manager_public_key;
  now_seconds = now_ms / 1000;
  clock_skew_seconds = config.clock_skew_seconds;
  resolve_file = config.resolve_file;
}

abbrev is_undefined : Json → Bool
is_undefined undefined = true
is_undefined _ = false

-- `other` reads the numerals of JSON that are not plain
module _ {R C : Type 0} (revocations : RevocationStore R) (redemptions : RedemptionStore C)
    (noble : Noble) (zod : Zod) (config : DownloadConfig) (other : String → Number) where
  -- the route from the grant that is presented, or `undefined`
  unfoldable pub download_with : Json → DownloadQuery → ℕ → R → C → DownloadReply × C
  download_with grant q now_ms ledger counts =
      if is_undefined grant then (grant_required, counts) else elim (present q.resource_id) [
        | none ↦ (resource_id_required, counts)
        | some resource_id ↦
            let (result, counts') =
              redeem_grant revocations redemptions noble zod
                (params_of config q grant resource_id now_ms) ledger counts in
            (reply_of result, counts')
      ]

  -- GET /download, with the header `Authorization`
  unfoldable pub get_download : Option String → DownloadQuery → ℕ → R → C → DownloadReply × C
  unfolding parse_presented_grant download_with
  get_download authorization_header q now_ms ledger counts =
      download_with (parse_presented_grant other authorization_header) q now_ms ledger counts
