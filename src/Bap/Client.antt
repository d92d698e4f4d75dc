-- ===== src/Bap/Client.antt =====
-- services/bap/src/app.ts: the routes of `search` and `confirm`, up to the wait for the callbacks and
-- from its end on.
pub mod Confirmed
pub mod Started
pub mod Typed
use Prim.Native.String
use beckn_data_commons.Base.{
  ℕ, zero, String, Bool, true, false, not, ◌==◌, ◌&&◌, Option, none, some, List, [], ◌∷◌, or_else,
  ◌>>=◌, if◌then◌else◌,
}
use beckn_data_commons.Js.{Number, nat, negative, non_finite}
use beckn_data_commons.Js.Text.{◌<>◌}
use beckn_data_commons.Json.{
  Json, undefined, null, bool, num, str, arr, obj, Fields, end, field, from_items, get, nullish,
}
use beckn_data_commons.Json.Texts.{string_of}
use beckn_data_commons.Domain.{LicenseClass, license_class, license_text}
use beckn_data_commons.Zod.{string}
use beckn_data_commons.Auth.Header.{present}
use beckn_data_commons.Grant.Types.{GrantScope, provider_json, resource_json, scope_json}
use beckn_data_commons.Grant.Parse.{grant_scope}
use beckn_data_commons.Http.{Request, Response}
use beckn_data_commons.AccessManager.App.{Reply, answered}
use beckn_data_commons.Bap.Orchestrator.{CallbackResponse, Registry}
use beckn_data_commons.Bap.Orchestrator.Journey.{
  BapConfig, BppEndpoint, ConfirmParams, SearchResult, start_search, start_single, search_message,
  search_result, single_result, confirm_request, request_json, full_scope,
}
use beckn_data_commons.Bap.Transport.{Sign, issue}
use beckn_data_commons.Bap.App.{error_json, handle_err, timeout, unknown_bpp, upstream}

-- `!!v`
abbrev truthy_number : Number → Bool
truthy_number (nat zero) = false
truthy_number (non_finite s) = not (s == "NaN")
truthy_number (negative zero true s) = false
truthy_number n = true

abbrev pub truthy : Json → Bool
truthy undefined = false
truthy null = false
truthy (bool b) = b
truthy (num n) = truthy_number n
truthy (str s) = not (s == "")
truthy v = true

-- a search on its way: what is sent to every provider, and the collectors
pub record Searching : Type 0 where
  pub message : Json
  pub registry : Registry

abbrev fields_of : Json → Fields
fields_of (obj fs) = fs
fields_of _ = end

-- POST /search, with the identifier of the transaction; an intent is an object, as typed
unfoldable pub search_route : BapConfig → Json → String → Registry → Searching
unfolding search_message
search_route config body transaction_id s =
    let b = nullish body (obj end) in
    record {
      message =
          search_message (fields_of (nullish (get "intent" b) (obj end)))
            (string (get "purpose" b));
      registry = start_search config transaction_id s;
    }

unfoldable pub search_reply : String → List CallbackResponse → Reply
unfolding search_result
search_reply transaction_id responses =
    let found = search_result transaction_id responses in
    answered 200 (
      obj (
        field "transactionId" (str found.transaction_id) (
          field "providers" (arr (from_items found.providers))
            (field "catalogs" (arr (from_items found.catalogs)) end))))

abbrev bad_request : String → Reply
bad_request detail = answered 400 (error_json "bad-request" detail)

abbrev pub has_texts : Json → Bool
has_texts b =
    truthy (get "transactionId" b)
    && truthy (get "bppId" b)
    && truthy (get "offerId" b)
    && truthy (get "resourceId" b)
    && truthy (get "purpose" b)

-- `b.scope !== undefined ? GrantScope.safeParse(b.scope) : undefined`, where `none` is a failed parse
abbrev pub scope_of : Json → Option (Option GrantScope)
scope_of undefined = some none
scope_of v = grant_scope v >>= λ scope. some (some scope)

abbrev pub optional_text : Json → Option String
optional_text v = if truthy v then some (string_of v) else none

-- What the route hands over to `confirm`. The id and the public key of the grantee are as they stand in
-- the body; the id has only been tested for being truthy.
pub record Confirmation : Type 0 where
  pub transaction_id : String
  pub bpp_id : String
  pub bpp_uri : Option String
  pub offer_id : String
  pub resource_id : String
  pub grantee_id : Json
  pub public_key : Json
  pub purpose : String
  pub license : LicenseClass
  pub scope : Option GrantScope

unfoldable pub params_of : Json → LicenseClass → Option GrantScope → Confirmation
unfolding string_of
params_of b license scope = record {
  transaction_id = string_of (get "transactionId" b);
  bpp_id = string_of (get "bppId" b);
  bpp_uri = optional_text (get "bppUri" b);
  offer_id = string_of (get "offerId" b);
  resource_id = string_of (get "resourceId" b);
  grantee_id = get "id" (get "grantee" b);
  public_key = get "publicKey" (get "grantee" b);
  purpose = string_of (get "purpose" b);
  license = license;
  scope = scope;
}

-- The checks, in their order: the parameters, or the detail of the error.
pub data Checked : Type 0 where
  good : Confirmation → Checked
  bad : String → Checked

unfoldable pub check_confirm : Json → Checked
unfolding license_class grant_scope params_of
check_confirm b =
    if not (has_texts b)
    then bad "transactionId, bppId, offerId, resourceId, purpose are required"
    else elim (license_class (get "licenseClass" b)) [
      | none ↦ bad "valid licenseClass is required"
      | some license ↦
          if not (truthy (get "id" (get "grantee" b)))
          then bad "grantee.id is required"
          else elim (scope_of (get "scope" b)) [
            | none ↦ bad "invalid scope"
            | some scope ↦ good (params_of b license scope)
          ]
    ]

-- a request that is answered at once, or one that waits for its callback
pub data ConfirmStarted : Type 0 where
  replied : Reply → ConfirmStarted
  waiting : Confirmation → BppEndpoint → Registry → ConfirmStarted

-- an unknown provider throws before anything is sent
unfoldable pub start_confirm : BapConfig → Confirmation → Registry → ConfirmStarted
unfolding start_single
start_confirm config params s =
    elim (start_single config "confirm" params.transaction_id params.bpp_id s) [
      | none ↦ replied (handle_err (unknown_bpp ("Unknown bppId: " <> params.bpp_id)))
      | some started ↦ waiting params started.0 started.1
    ]

-- POST /confirm
unfoldable pub confirm_route : BapConfig → Json → Registry → ConfirmStarted
unfolding check_confirm start_confirm
confirm_route config body s = elim (check_confirm (nullish body (obj end))) [
  | bad detail ↦ replied (bad_request detail)
  | good params ↦ start_confirm config params s
]

-- the body of the request for a grant
unfoldable pub confirmation_json : Confirmation → BppEndpoint → Json
confirmation_json c target = obj (
    field "grantee" (obj (field "id" c.grantee_id (field "publicKey" c.public_key end))) (
      field "provider"
        (provider_json (record { bpp_id = target.bpp_id; bpp_uri = or_else c.bpp_uri target.uri }))
        (field "resource"
          (resource_json (record { resource_id = c.resource_id; offer_id = c.offer_id }))
          (field "scope" (scope_json (or_else c.scope full_scope)) (
            field "licenseClass" (str (license_text c.license)) (
              field "purpose" (str c.purpose)
                (field "transactionId" (str c.transaction_id) end)))))))

module _ {N : Type 0} (fetch : Request → N → Option Response × N) (access_manager_url : String)
    (sign : Sign) where
  -- Once the wait has ended: the contract of the callback, and the grant that the Access Manager
  -- issues for a body. `late` and `failed` are the messages of the errors.
  unfoldable pub reply_for : String → String → Json → List CallbackResponse → N → Reply × N
  unfolding issue single_result
  reply_for late failed body responses n = elim (single_result responses) [
    | none ↦ (handle_err (timeout late), n)
    | some contract ↦
        let (grant, n') = issue fetch access_manager_url sign body n in
        elim grant [
          | none ↦ (handle_err (upstream failed), n')
          | some g ↦ (answered 200 (obj (field "contract" contract (field "grant" g end))), n')
        ]
  ]

  -- for what the route handed over
  unfoldable pub confirmation_reply :
      String → String → Confirmation → BppEndpoint → List CallbackResponse → N → Reply × N
  unfolding reply_for confirmation_json
  confirmation_reply late failed c target = reply_for late failed (confirmation_json c target)

  -- for parameters whose grantee is as typed
  unfoldable pub confirm_reply :
      String → String → ConfirmParams → BppEndpoint → List CallbackResponse → N → Reply × N
  unfolding reply_for request_json confirm_request
  confirm_reply late failed params target =
      reply_for late failed (request_json (confirm_request params target))
