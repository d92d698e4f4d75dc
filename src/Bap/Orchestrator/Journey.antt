-- ===== src/Bap/Orchestrator/Journey.antt =====
-- What the platform sends for `search`, `select`, `init` and `confirm`, and what it makes of the
-- callbacks that it collected.
pub mod Requests
use beckn_data_commons.Base.{
  ℕ, String, Bool, true, false, ◌==◌, Option, none, some, List, [], ◌∷◌, ◌++◌, map, find, or_else,
  length, first, if◌then◌else◌,
}
use beckn_data_commons.Js.{nat}
use beckn_data_commons.Json.{
  Json, undefined, null, str, num, arr, obj, Items, Fields, end, field, get, items, from_items,
  set_field, nullish,
}
use beckn_data_commons.Domain.{LicenseClass, license_text}
use beckn_data_commons.Zod.{field_if}
use beckn_data_commons.Auth.Header.{present}
use beckn_data_commons.Grant.Types.{
  GrantScopeKind, full, GrantScope, Grantee, Provider, ResourceRef, IssueGrantRequest, grantee_json,
  provider_json, resource_json, scope_json,
}
use beckn_data_commons.Bap.Orchestrator.{CallbackResponse, Registry, fan_out}

pub record BppEndpoint : Type 0 where
  pub bpp_id : String
  pub uri : String

-- what the orchestrator reads of its configuration
pub record BapConfig : Type 0 where
  pub network_id : String
  pub bap_id : String
  pub bap_uri : String
  pub message_ttl : String
  pub bpps : List BppEndpoint

pub record ConfirmParams : Type 0 where
  pub transaction_id : String
  pub bpp_id : String
  pub bpp_uri : Option String
  pub offer_id : String
  pub resource_id : String
  pub grantee : Grantee
  pub purpose : String
  pub license : LicenseClass
  pub scope : Option GrantScope

module _ (config : BapConfig) where
  -- with what `randomUUID()` and the clock returned
  abbrev pub context : String → String → BppEndpoint → String → String → Json
  context action transaction_id target message_id timestamp = obj (
      field "networkId" (str config.network_id) (
        field "action" (str action) (
          field "version" (str "2.0.0") (
            field "bapId" (str config.bap_id) (
              field "bapUri" (str config.bap_uri) (
                field "bppId" (str target.bpp_id) (
                  field "bppUri" (str target.uri) (
                    field "transactionId" (str transaction_id) (
                      field "messageId" (str message_id) (
                        field "timestamp" (str timestamp)
                          (field "ttl" (str config.message_ttl) end)))))))))))

  -- the envelope for each target
  abbrev pub envelope : String → String → Json → BppEndpoint → String → String → Json
  envelope action transaction_id message target message_id timestamp = obj (
      field "context" (context action transaction_id target message_id timestamp)
        (field "message" message end))

  unfoldable pub resolve_bpp : String → Option BppEndpoint
  resolve_bpp bpp_id = find (λ b. b.bpp_id == bpp_id) config.bpps

  -- the collector of a search waits for all platforms
  abbrev pub start_search : String → Registry → Registry
  start_search transaction_id s = fan_out "discover" transaction_id (length config.bpps) s

  -- an unknown platform throws before anything is sent
  unfoldable pub start_single :
      String → String → String → Registry → Option (BppEndpoint × Registry)
  unfolding resolve_bpp
  start_single action transaction_id bpp_id s = elim (resolve_bpp bpp_id) [
    | none ↦ none
    | some target ↦ some (target, fan_out action transaction_id 1 s)
  ]

-- `{ intent: { ...intent, ...(purpose ? { purpose } : {}) } }`
unfoldable pub search_message : Fields → Option String → Json
unfolding set_field
search_message intent purpose = elim (present purpose) [
  | none ↦ obj (field "intent" (obj intent) end)
  | some p ↦ obj (field "intent" (obj (set_field "purpose" (str p) intent)) end)
]

abbrev pub offer_message : String → Json
offer_message offer_id = obj (
    field "contract"
      (obj (field "offers" (arr (from_items (obj (field "id" (str offer_id) end) ∷ []))) end)) end)

pub record SearchResult : Type 0 where
  pub transaction_id : String
  pub providers : List Json
  pub catalogs : List Json

-- `(r.message.catalogs ?? [])`, where an array is expected
abbrev pub catalogs_of : Json → List Json
catalogs_of (arr vs) = items vs
catalogs_of _ = []

unfoldable pub all_catalogs : List CallbackResponse → List Json
all_catalogs [] = []
all_catalogs (r ∷ rs) = catalogs_of (get "catalogs" r.message) ++ all_catalogs rs

unfoldable pub search_result : String → List CallbackResponse → SearchResult
search_result transaction_id responses = record {
  transaction_id = transaction_id;
  providers = map (λ r. r.bpp_id) responses;
  catalogs = all_catalogs responses;
}

-- `none` is the error that no callback came within the window
unfoldable pub single_result : List CallbackResponse → Option Json
single_result [] = none
single_result (r ∷ rs) = some (nullish (get "contract" r.message) (obj end))

-- the scope where the caller gives none
abbrev pub full_scope : GrantScope
full_scope = record { kind = full; fields = none; max_downloads = none }

unfoldable pub confirm_request : ConfirmParams → BppEndpoint → IssueGrantRequest
confirm_request params target = record {
  grantee = params.grantee;
  provider = record { bpp_id = target.bpp_id; bpp_uri = or_else params.bpp_uri target.uri };
  resource = record { resource_id = params.resource_id; offer_id = params.offer_id };
  scope = or_else params.scope full_scope;
  license = params.license;
  purpose = params.purpose;
  transaction_id = params.transaction_id;
  ttl_seconds = none;
}

-- the body of the request to the Access Manager
unfoldable pub request_json : IssueGrantRequest → Json
request_json r = obj (
    field "grantee" (grantee_json r.grantee) (
      field "provider" (provider_json r.provider) (
        field "resource" (resource_json r.resource) (
          field "scope" (scope_json r.scope) (
            field "licenseClass" (str (license_text r.license)) (
              field "purpose" (str r.purpose) (
                field "transactionId" (str r.transaction_id)
                  (field_if "ttlSeconds" (λ n. num (nat n)) r.ttl_seconds end))))))))
