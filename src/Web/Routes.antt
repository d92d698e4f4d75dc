-- ===== src/Web/Routes.antt =====
-- apps/web/src/app/api: the routes of the web application. A body is what `request.json()` gives, or the
-- empty object; one that is the value null is outside the model.
pub mod Presented
use Prim.Native.String
use beckn_data_commons.Base.{
  ℕ, String, Bool, true, false, not, ◌==◌, ◌||◌, Option, none, some, List, [], ◌∷◌, or_else,
  if◌then◌else◌,
}
use beckn_data_commons.Js.{nat}
use beckn_data_commons.Js.Text.{◌<>◌}
use beckn_data_commons.Json.{
  Json, undefined, str, num, bool, arr, obj, Fields, end, field, get, nullish, items, from_items,
}
use beckn_data_commons.Zod.{Zod, string, field_if}
use beckn_data_commons.Auth.Header.{present}
use beckn_data_commons.Http.{Request, Response}
use beckn_data_commons.Grant.Types.{SignedAccessGrant, signed_json}
use beckn_data_commons.Grant.Parse.{parse_signed_grant}
use beckn_data_commons.AccessManager.App.{Reply, answered}
use beckn_data_commons.Web.Offers.{flatten_offers}
use beckn_data_commons.Web.Client.{
  Outcome, failed, done, ConfirmParams, DownloadResult, Url, rewrite_access_url, access_url_from,
}
use beckn_data_commons.Web.Client

abbrev pub error_reply : ℕ → String → String → Reply
error_reply status error detail =
    answered status (obj (field "error" (str error) (field "detail" (str detail) end)))

abbrev unreachable_reply : String → Reply
unreachable_reply detail = error_reply 502 "backend-unreachable" detail

-- a text that is not empty
abbrev pub has_text : Json → Bool
has_text v = not (or_else (string v) "" == "")

abbrev pub required : List String
required =
    "transactionId" ∷ "bppId" ∷ "offerId" ∷ "resourceId" ∷ "granteeId" ∷ "purpose" ∷ "licenseClass"
    ∷ []

-- the first field without a text
unfoldable pub missing : List String → Json → Option String
unfolding get
missing [] b = none
missing (name ∷ names) b = if has_text (get name b) then missing names b else some name

abbrev pub params_of : Json → ConfirmParams
params_of b = record {
  transaction_id = get "transactionId" b;
  bpp_id = get "bppId" b;
  bpp_uri = get "bppUri" b;
  offer_id = get "offerId" b;
  resource_id = get "resourceId" b;
  grantee_id = get "granteeId" b;
  purpose = get "purpose" b;
  license = get "licenseClass" b;
  scope = get "scope" b;
}

abbrev confirmed_json : Json → Json → String → Json
confirmed_json contract grant access_url =
    obj (field "contract" contract (field "grant" grant (field "accessUrl" (str access_url) end)))

unfoldable pub confirmed_reply : String → Outcome Json → Reply
unfolding access_url_from
confirmed_reply type_error (failed message) = error_reply 502 "confirm-failed" message
confirmed_reply type_error (done v) =
    elim (access_url_from type_error (get "contract" v) (get "grant" v)) [
      | failed message ↦ error_reply 502 "confirm-failed" message
      | done url ↦ answered 200 (confirmed_json (get "contract" v) (get "grant" v) url)
    ]

abbrev intent_keys : List String
intent_keys = "query" ∷ "kind" ∷ "modality" ∷ "taskType" ∷ "licenseClass" ∷ "minRows" ∷ []

abbrev is_left_out : Json → Bool
is_left_out undefined = true
is_left_out (str s) = s == ""
is_left_out v = false

unfoldable pub intent_of : List String → Json → Fields
unfolding get
intent_of [] body = end
intent_of (key ∷ keys) body =
    let rest = intent_of keys body in
    if is_left_out (get key body) then rest else field key (get key body) rest

-- catalogs that are no list are an error that the loop throws
unfoldable pub found_reply : String → Outcome Json → Reply
unfolding flatten_offers
found_reply type_error (failed message) = unreachable_reply message
found_reply type_error (done v) = elim (get "catalogs" v) [
  | arr catalogs ↦ answered 200 (
      obj (
        field "transactionId" (get "transactionId" v) (
          field "providers" (get "providers" v)
            (field "offers" (arr (from_items (flatten_offers (items catalogs)))) end))))
  | _ ↦ unreachable_reply type_error
]

unfoldable pub result_json : DownloadResult → Json
result_json r = obj (
    field "ok" (bool r.ok) (
      field "httpStatus" (num (nat r.http_status)) (
        field_if "error" str r.error (
          field_if "filename" str r.filename
            (field_if "bytes" (λ n. num (nat n)) r.bytes (field_if "preview" str r.preview end))))))

abbrev pub result_reply : Outcome DownloadResult → Reply
result_reply (failed message) = unreachable_reply message
result_reply (done r) = answered 200 (result_json r)

abbrev listed_reply : Outcome (List Json) → Reply
listed_reply (failed message) = unreachable_reply message
listed_reply (done grants) = answered 200 (obj (field "grants" (arr (from_items grants)) end))

abbrev revoked_reply : Outcome (ℕ × Json) → Reply
revoked_reply (failed message) = unreachable_reply message
revoked_reply (done (status, body)) = answered status body

abbrev pub bad_download : Reply
bad_download = error_reply 400 "bad-request" "a valid signed grant and accessUrl are required"

-- `unreachable` and `type_error` are the messages of the errors that `fetch` and a cast throw
module _ {N : Type 0} (fetch : Request → N → Option Response × N) (parse_url : String → Option Url)
    (zod : Zod) (unreachable type_error : String) (bap_url am_url : String)
    (download_rewrite : Option String) where
  -- POST /api/confirm
  unfoldable pub confirm_route : Json → N → Reply × N
  unfolding missing confirmed_reply Client.confirm
  confirm_route b n = elim (missing required b) [
    | some name ↦ (error_reply 400 "bad-request" (name <> " is required"), n)
    | none ↦
        let (outcome, n') = Client.confirm fetch unreachable bap_url am_url (params_of b) n in
        (confirmed_reply type_error outcome, n')
  ]

  -- POST /api/search
  unfoldable pub search_route : Json → N → Reply × N
  unfolding intent_of found_reply Client.search
  search_route body n =
      let (outcome, n') =
        Client.search fetch unreachable bap_url am_url (obj (intent_of intent_keys body))
          (get "purpose" body) n in
      (found_reply type_error outcome, n')

  -- GET /api/grants
  unfoldable pub grants_route : Option String → N → Reply × N
  unfolding Client.list_grants
  grants_route grantee n = elim (present grantee) [
    | none ↦ (error_reply 400 "bad-request" "grantee is required", n)
    | some grantee_id ↦
        let (outcome, n') = Client.list_grants fetch unreachable bap_url am_url grantee_id n in
        (listed_reply outcome, n')
  ]

  -- POST /api/grants/[grantId]/revoke
  unfoldable pub revoke_route : String → Json → N → Reply × N
  unfolding Client.revoke_grant
  revoke_route grant_id body n =
      let (outcome, n') =
        Client.revoke_grant fetch unreachable bap_url am_url grant_id
          (nullish (get "reason" body) (str "revoked via console")) n in
      (revoked_reply outcome, n')

  abbrev pub present_grant : SignedAccessGrant → String → N → Outcome DownloadResult × N
  present_grant g access_url n =
      Client.download fetch unreachable bap_url am_url
        (rewrite_access_url parse_url download_rewrite access_url) (signed_json g) n

  -- POST /api/download
  unfoldable pub download_route : Json → N → Reply × N
  unfolding parse_signed_grant get result_json rewrite_access_url Client.download
  download_route body n = elim (parse_signed_grant zod (get "grant" body)) [
    | none ↦ (bad_download, n)
    | some g ↦ elim (present (string (get "accessUrl" body))) [
      | none ↦ (bad_download, n)
      | some access_url ↦
          let (outcome, n') = present_grant g access_url n in (result_reply outcome, n')
    ]
  ]
