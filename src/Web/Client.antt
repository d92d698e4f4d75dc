-- ===== src/Web/Client.antt =====
-- apps/web/src/lib/bdc.ts: the client of the platform, the Access Manager and the providers. An error
-- that is thrown is `failed` with its message; `unreachable` is the message of one that `fetch` throws.
-- The parser of addresses is the platform's, a parameter.
use beckn_data_commons.Base.{
  ℕ, ◌+◌, String, Bool, true, false, ◌==◌, ◌&&◌, not, Option, none, some, List, [], ◌∷◌, first,
  length, take, or_else, or_option, ◌>>=◌, if◌then◌else◌,
}
use beckn_data_commons.Js.{decimal}
use beckn_data_commons.Js.Text.{◌<>◌, split, join, units}
use beckn_data_commons.Js.Space.{trim_start, trim_end, trim}
use beckn_data_commons.Js.Uri.{encode_uri_component, without_slash}
use beckn_data_commons.Bap.Client.{truthy}
use beckn_data_commons.Json.{Json, undefined, null, str, obj, end, field, get, nullish}
use beckn_data_commons.Json.Texts.{string_of}
use beckn_data_commons.Json.Print.{json_stringify}
use beckn_data_commons.Http.{Request, Response, is_ok, json_of, post}
use beckn_data_commons.Zod.{string}
use beckn_data_commons.Mcp.Gateway.{encode_grant_header, filename_of, grants_of}
use beckn_data_commons.Mcp.Replies.{access_url_from_contract}

pub data Outcome {ℓ} (A : Type ℓ) : Type ℓ where
  failed : String → Outcome A
  done : A → Outcome A

abbrev pub then_do : {A B : Type 0} → (A → Outcome B) → Outcome A → Outcome B
then_do f (failed message) = failed message
then_do f (done a) = f a

-- what the route hands over, as it stands in the body that it has checked
pub record ConfirmParams : Type 0 where
  pub transaction_id : Json
  pub bpp_id : Json
  pub bpp_uri : Json
  pub offer_id : Json
  pub resource_id : Json
  pub grantee_id : Json
  pub purpose : Json
  pub license : Json
  pub scope : Json

pub record DownloadResult : Type 0 where
  pub ok : Bool
  pub http_status : ℕ
  pub error : Option String
  pub filename : Option String
  pub bytes : Option ℕ
  pub preview : Option String

-- `const { granteeId, ...rest } = params`, with the grantee in its place
abbrev pub confirm_json : ConfirmParams → Json
confirm_json p = obj (
    field "transactionId" p.transaction_id (
      field "bppId" p.bpp_id (
        field "bppUri" p.bpp_uri (
          field "offerId" p.offer_id (
            field "resourceId" p.resource_id (
              field "purpose" p.purpose (
                field "licenseClass" p.license (
                  field "scope" p.scope
                    (field "grantee" (obj (field "id" p.grantee_id end)) end)))))))))

-- an address with its path and its query, as `new URL(url)` reads it
pub record Url : Type 0 where
  pub pathname : String
  pub search : String

abbrev second : List String → Option String
second [] = none
second (x ∷ xs) = first xs

-- `s.slice(n)`
unfoldable pub drop : ℕ → String → String
drop ℕ.zero s = s
drop (ℕ.suc n) String.[] = ""
drop (ℕ.suc n) (String.◌∷◌ c s) = drop n s

-- one entry of the form `prefix=base`, for the first part of the path
unfoldable pub rewrite_by : String → Url → String → Option String
unfolding split trim_start trim_end without_slash drop units
rewrite_by prefix parsed entry =
    let path_prefix = first (split b'=' entry) in
    let base = or_else (second (split b'=' entry)) "" in
    if (trim (or_else path_prefix "") == prefix) && not (base == "")
    then some (
        without_slash (trim base)
        <> drop (length (units prefix) + 1) parsed.pathname
        <> parsed.search)
    else none

unfoldable pub rewrite_by_first : String → Url → List String → Option String
unfolding rewrite_by
rewrite_by_first prefix parsed [] = none
rewrite_by_first prefix parsed (entry ∷ entries) =
    or_option (rewrite_by prefix parsed entry) (rewrite_by_first prefix parsed entries)

module _ (parse_url : String → Option Url) where
  -- `rewriteAccessUrl`, with the setting that it reads
  unfoldable pub rewrite_access_url : Option String → String → String
  unfolding rewrite_by_first split
  rewrite_access_url none url = url
  rewrite_access_url (some spec) url =
      or_else
        (do
          parsed ← parse_url url
          rewrite_by_first (or_else (second (split b'/' parsed.pathname)) "") parsed
              (split b',' spec))
        url

abbrev pub error_of : Response → String
error_of res = string_of (nullish (get "error" (json_of res)) (str res.status_text))

unfoldable pub download_result : Response → DownloadResult
unfolding filename_of string_of units split join
download_result res =
    if is_ok res
    then (record {
      ok = true;
      http_status = res.status;
      error = none;
      filename = filename_of (or_else res.content_disposition "");
      bytes = some (length (units res.text));
      preview = some (join "\n" (take 6 (split b'\n' res.text)));
    })
    else (record {
      ok = false;
      http_status = res.status;
      error = some (error_of res);
      filename = none;
      bytes = none;
      preview = none;
    })

-- the query of an address that the contract does not give
abbrev offer_query : Json → String
offer_query offer_id =
    if truthy offer_id then "&offerId=" <> encode_uri_component (string_of offer_id) else ""

abbrev is_nullish : Json → Bool
is_nullish undefined = true
is_nullish null = true
is_nullish v = false

-- the address at the provider of a grant; a grant without it is an error that the code throws
unfoldable pub provider_url : String → Json → Outcome String
unfolding encode_uri_component without_slash string_of
provider_url type_error grant =
    let claims = get "claims" grant in
    let resource = get "resource" claims in
    elim (string (get "bppUri" (get "provider" claims))) [
      | none ↦ failed type_error
      | some bpp_uri ↦
          if is_nullish resource
          then failed type_error
          else done (
              without_slash bpp_uri
              <> "/download?resourceId="
              <> encode_uri_component (string_of (get "resourceId" resource))
              <> offer_query (get "offerId" resource))
    ]

-- `accessUrlFrom`
unfoldable pub access_url_from : String → Json → Json → Outcome String
unfolding access_url_from_contract provider_url
access_url_from type_error contract grant =
    if is_nullish contract then failed type_error else elim (access_url_from_contract contract) [
      | some url ↦ done url
      | none ↦ provider_url type_error grant
    ]

module _ {N : Type 0} (fetch : Request → N → Option Response × N) (unreachable : String)
    (bap_url am_url : String) where
  abbrev pub answer_of : {A : Type 0} → (Response → Outcome A) → Option Response × N → Outcome A × N
  answer_of read (none, n) = (failed unreachable, n)
  answer_of read (some res, n) = (read res, n)

  abbrev pub ok_json : String → Response → Outcome Json
  ok_json url res =
      if is_ok res
      then done (json_of res)
      else failed (url <> " -> HTTP " <> decimal res.status <> ": " <> json_stringify (json_of res))

  unfoldable pub post_json : String → Json → N → Outcome Json × N
  unfolding decimal json_stringify
  post_json url body n = answer_of (ok_json url) (fetch (post none url body) n)

  unfoldable pub search : Json → Json → N → Outcome Json × N
  unfolding post_json
  search intent purpose n =
      post_json (without_slash bap_url <> "/search")
        (obj (field "intent" intent (field "purpose" purpose end))) n

  unfoldable pub confirm : ConfirmParams → N → Outcome Json × N
  unfolding post_json
  confirm params n = post_json (without_slash bap_url <> "/confirm") (confirm_json params) n

  -- whatever the status
  unfoldable pub list_grants : String → N → Outcome (List Json) × N
  list_grants grantee_id n =
      answer_of (λ res. done (grants_of (json_of res)))
        (fetch
          (record {
            method = "GET";
            url = without_slash am_url <> "/grants?grantee=" <> encode_uri_component grantee_id;
            body = none;
            authorization = none;
          })
          n)

  -- the status and the body
  unfoldable pub revoke_grant : String → Json → N → Outcome (ℕ × Json) × N
  revoke_grant grant_id reason n =
      answer_of (λ res. done (res.status, json_of res))
        (fetch
          (post none
            (without_slash am_url <> "/grants/" <> encode_uri_component grant_id <> "/revoke")
            (obj (field "reason" reason end)))
          n)

  abbrev pub download_request : String → Json → Request
  download_request url grant = record {
    method = "GET";
    url = url;
    body = none;
    authorization = some (encode_grant_header grant);
  }

  unfoldable pub download : String → Json → N → Outcome DownloadResult × N
  unfolding download_result
  download url grant n =
      answer_of (λ res. done (download_result res)) (fetch (download_request url grant) n)
