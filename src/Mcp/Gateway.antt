-- ===== src/Mcp/Gateway.antt =====
-- services/mcp-server/src/gateway.ts: the client of the platform, the Access Manager and the providers.
-- An error that is thrown is `none`. A body that is JSON but not of its declared type is outside the
-- model where the code casts it: `search` and `confirm` make it an error here.
pub mod Headers
use Prim.Native.Char.{code}
use Prim.Native.String
use beckn_data_commons.Base.{
  ℕ, String, Bool, true, false, not, ◌&&◌, ◌==◌, leb, ltb, eqb, Option, none, some, List, [], ◌∷◌,
  or_else, or_option, such_that, ◌>>=◌, if◌then◌else◌,
}
use beckn_data_commons.Js.Text.{◌<>◌, utf8}
use beckn_data_commons.Js.Base64.{to_base64url}
use beckn_data_commons.Json.Print.{json_stringify}
use beckn_data_commons.Js.Uri.{encode_uri_component, without_slash}
use beckn_data_commons.Json.{Json, str, arr, obj, Fields, end, field, get, nullish, items, wire}
use beckn_data_commons.Json.Texts.{string_of, without_prefix}
use beckn_data_commons.Http.{Request, Response, is_ok, json_of, post, then_read}
use beckn_data_commons.Domain.{LicenseClass, license_text}
use beckn_data_commons.Zod.{string, field_if}
use beckn_data_commons.Grant.Types.{GrantScope, Grantee, grantee_json, scope_json}
use beckn_data_commons.Bap.Orchestrator.Journey.{ConfirmParams}
use beckn_data_commons.Mcp.Session.{SearchResponse}

pub record ConfirmResponse : Type 0 where
  pub contract : Json
  pub grant : Json

pub record RevokeResult : Type 0 where
  pub outcome : String
  pub http_status : ℕ

pub record DownloadResult : Type 0 where
  pub ok : Bool
  pub http_status : ℕ
  pub content_type : Option String
  pub filename : Option String
  pub body : Option String
  pub error : Option String

-- The interface, over what the network does: each call takes its state and returns the next.
pub record BdcGateway (N : Type 0) : Type 0 where
  pub search : Json → Option String → N → Option SearchResponse × N
  pub select : String → String → String → N → Option Json × N
  pub init : String → String → String → N → Option Json × N
  pub confirm : ConfirmParams → N → Option ConfirmResponse × N
  pub list_grants : String → N → Option (List Json) × N
  pub revoke_grant : String → String → N → Option RevokeResult × N
  pub download : String → Json → N → Option DownloadResult × N

-- the header that presents a grant to a provider
unfoldable pub encode_grant_header : Json → String
unfolding to_base64url utf8 json_stringify
encode_grant_header grant = "Grant " <> to_base64url (utf8 (json_stringify grant))

-- The text up to the next quote.
unfoldable pub until_quote : String → String
until_quote String.[] = ""
until_quote (String.◌∷◌ c s) =
    let rest = until_quote s in if eqb (code c) 34 then "" else String.◌∷◌ c rest

abbrev pub without_quote : String → String
without_quote String.[] = ""
without_quote (String.◌∷◌ c s) = if eqb (code c) 34 then s else String.◌∷◌ c s

-- `/filename="?([^"]+)"?/` at the start of a text
unfoldable pub filename_here : String → Option String
unfolding until_quote without_prefix
filename_here s = do
  rest ← without_prefix "filename=" s
  such_that (λ f. not (f == "")) (some (until_quote (without_quote rest)))

-- the group of the first match
unfoldable pub filename_of : String → Option String
unfolding filename_here
filename_of String.[] = filename_here String.[]
filename_of (String.◌∷◌ c s) = or_option (filename_here (String.◌∷◌ c s)) (filename_of s)

abbrev pub search_json : Json → Option String → Json
search_json intent purpose = obj (field "intent" intent (field_if "purpose" str purpose end))

abbrev pub contract_json : String → String → String → Json
contract_json transaction_id bpp_id offer_id = obj (
    field "transactionId" (str transaction_id)
      (field "bppId" (str bpp_id) (field "offerId" (str offer_id) end)))

-- the body of POST /confirm
unfoldable pub confirm_json : ConfirmParams → Json
confirm_json p = obj (
    field "transactionId" (str p.transaction_id) (
      field "bppId" (str p.bpp_id) (
        field_if "bppUri" str p.bpp_uri (
          field "offerId" (str p.offer_id) (
            field "resourceId" (str p.resource_id) (
              field "grantee" (grantee_json p.grantee) (
                field "purpose" (str p.purpose) (
                  field "licenseClass" (str (license_text p.license))
                    (field_if "scope" scope_json p.scope end)))))))))

abbrev array : Json → Option (List Json)
array (arr vs) = some (items vs)
array _ = none

unfoldable pub read_search : Json → Option SearchResponse
read_search v = do
  transaction_id ← string (get "transactionId" v)
  catalogs ← array (get "catalogs" v)
  some (record { transaction_id = transaction_id; catalogs = catalogs })

abbrev pub read_confirm : Json → ConfirmResponse
read_confirm v = record { contract = get "contract" v; grant = get "grant" v }

abbrev pub contract_of : Json → Json
contract_of v = nullish (get "contract" v) (obj end)

-- `(json.grants as Json[]) ?? []`
abbrev pub grants_of : Json → List Json
grants_of v = or_else (array (get "grants" v)) []

abbrev pub revoked_result : Response → RevokeResult
revoked_result res = record {
  outcome = string_of (
      nullish (get "outcome" (json_of res))
        (nullish (get "error" (json_of res)) (str res.status_text)));
  http_status = res.status;
}

unfoldable pub download_result : Response → DownloadResult
unfolding filename_of string_of
download_result res =
    if is_ok res
    then (record {
      ok = true;
      http_status = res.status;
      content_type = res.content_type;
      filename = filename_of (or_else res.content_disposition "");
      body = some res.text;
      error = none;
    })
    else (record {
      ok = false;
      http_status = res.status;
      content_type = none;
      filename = none;
      body = none;
      error = some (string_of (nullish (get "error" (json_of res)) (str res.status_text)));
    })

-- a status that is not ok throws
abbrev pub ok_json : Response → Option Json
ok_json res = if is_ok res then some (json_of res) else none

module _ {N : Type 0} (fetch : Request → N → Option Response × N) (bap_url am_url : String) where
  abbrev bap : String → String
  bap path = without_slash bap_url <> path

  abbrev am : String → String
  am path = without_slash am_url <> path

  unfoldable pub post_json : String → Json → N → Option Json × N
  post_json url body n = then_read ok_json (fetch (post none url body) n)

  unfoldable pub search : Json → Option String → N → Option SearchResponse × N
  unfolding post_json read_search
  search intent purpose n =
      then_read read_search (post_json (bap "/search") (search_json intent purpose) n)

  unfoldable pub select : String → String → String → N → Option Json × N
  unfolding post_json
  select transaction_id bpp_id offer_id n =
      then_read (λ v. some (contract_of v))
        (post_json (bap "/select") (contract_json transaction_id bpp_id offer_id) n)

  unfoldable pub init : String → String → String → N → Option Json × N
  unfolding post_json
  init transaction_id bpp_id offer_id n =
      then_read (λ v. some (contract_of v))
        (post_json (bap "/init") (contract_json transaction_id bpp_id offer_id) n)

  unfoldable pub confirm : ConfirmParams → N → Option ConfirmResponse × N
  unfolding post_json
  confirm params n =
      then_read (λ v. some (read_confirm v)) (post_json (bap "/confirm") (confirm_json params) n)

  abbrev list_request : String → Request
  list_request grantee_id = record {
    method = "GET";
    url = am ("/grants?grantee=" <> encode_uri_component grantee_id);
    body = none;
    authorization = none;
  }

  -- whatever the status
  unfoldable pub list_grants : String → N → Option (List Json) × N
  list_grants grantee_id n =
      then_read (λ res. some (grants_of (json_of res))) (fetch (list_request grantee_id) n)

  abbrev pub revoke_request : String → String → Request
  revoke_request grant_id reason =
      post none (am ("/grants/" <> (encode_uri_component grant_id <> "/revoke")))
        (obj (field "reason" (str reason) end))

  -- whatever the status
  unfoldable pub revoke_grant : String → String → N → Option RevokeResult × N
  revoke_grant grant_id reason n =
      then_read (λ res. some (revoked_result res)) (fetch (revoke_request grant_id reason) n)

  abbrev pub download_request : String → Json → Request
  download_request url grant = record {
    method = "GET";
    url = url;
    body = none;
    authorization = some (encode_grant_header grant);
  }

  unfoldable pub download : String → Json → N → Option DownloadResult × N
  unfolding download_result
  download url grant n =
      then_read (λ res. some (download_result res)) (fetch (download_request url grant) n)

  abbrev pub http_gateway : BdcGateway N
  http_gateway = record {
    search = search;
    select = select;
    init = init;
    confirm = confirm;
    list_grants = list_grants;
    revoke_grant = revoke_grant;
    download = download;
  }
