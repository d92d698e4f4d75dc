-- ===== src/Mcp/Tools.antt =====
-- services/mcp-server/src/server.ts: the seven tools, over a gateway. The library of the protocol calls
-- a tool with arguments that meet its schema, and turns an error that a tool throws, `none`, into an
-- answer. An offer's resource id is a text, as typed.
pub mod Obtained
pub mod Calls
pub mod Stored
pub mod Revoked
pub mod Named
use beckn_data_commons.Base.{
  ℕ, String, Bool, true, false, Option, none, some, List, [], ◌∷◌, or_else, eqb, if◌then◌else◌,
}
use beckn_data_commons.Js.{nat}
use beckn_data_commons.Js.Text.{◌<>◌}
use beckn_data_commons.Js.Uri.{encode_uri_component}
use beckn_data_commons.Json.{Json, undefined, null, num, str, obj, end, get}
use beckn_data_commons.Json.Texts.{string_of}
use beckn_data_commons.Domain.{LicenseClass, license_text}
use beckn_data_commons.Zod.{string, field_if}
use beckn_data_commons.Auth.Header.{present}
use beckn_data_commons.Grant.Types.{GrantScopeKind, full, GrantScope}
use beckn_data_commons.Bap.Orchestrator.Journey.{ConfirmParams}
use beckn_data_commons.Mcp.Session.{
  OfferRef, GrantRef, SearchResponse, BdcSession, record_search, get_offer, record_grant, get_grant,
  latest_grant_for_offer,
}
use beckn_data_commons.Mcp.Gateway.{ConfirmResponse, RevokeResult, DownloadResult, BdcGateway}
use beckn_data_commons.Mcp.Replies.{
  Shown, ToolResult, ok, fail, access_url_from_contract, search_reply, unknown_offer, search_first,
  resource_reply, confirmed_reply, list_reply, negotiated_reply, no_license, revoked_reply,
  no_grant, refused_reply, downloaded_reply,
}

-- what the tools read of the configuration
pub record McpConfig : Type 0 where
  pub grantee_id : String
  pub download_dir : String

-- The files, and the paths of the platform. A call that fails throws.
pub record FileSystem (F : Type 0) : Type 0 where
  pub join : String → String → String
  pub mkdir : String → F → Option F
  pub write_file : String → String → F → Option F

pub record SearchArgs : Type 0 where
  pub query : Option String
  pub kind : Option String
  pub modality : Option String
  pub task_type : Option String
  pub license : Option LicenseClass
  pub min_rows : Option ℕ
  pub purpose : Option String

pub record ConfirmArgs : Type 0 where
  pub offer_id : String
  pub purpose : String
  pub scope : Option GrantScopeKind
  pub fields : Option (List String)

pub record DownloadArgs : Type 0 where
  pub offer_id : Option String
  pub grant_id : Option String

unfoldable pub intent_of : SearchArgs → Json
intent_of args = obj (
    field_if "query" str args.query (
      field_if "kind" str args.kind (
        field_if "modality" str args.modality (
          field_if "taskType" str args.task_type (
            field_if "licenseClass" (λ l. str (license_text l)) args.license
              (field_if "minRows" (λ n. num (nat n)) args.min_rows end))))))

abbrev pub grant_scope : ConfirmArgs → GrantScope
grant_scope args = elim args.scope [
  | none ↦ record { kind = full; fields = none; max_downloads = none }
  | some kind ↦ record { kind = kind; fields = args.fields; max_downloads = none }
]

-- `${bppUri}/download?resourceId=…&offerId=…`
unfoldable pub fallback_url : String → String → String → String
unfolding encode_uri_component
fallback_url bpp_uri resource_id offer_id =
    bpp_uri
    <> "/download?resourceId="
    <> encode_uri_component resource_id
    <> "&offerId="
    <> encode_uri_component offer_id

abbrev is_nullish : Json → Bool
is_nullish undefined = true
is_nullish null = true
is_nullish _ = false

abbrev pub url_of : GrantRef → String
url_of ref = or_else ref.access_url (fallback_url ref.bpp_uri ref.resource_id ref.offer_id)

-- the grant that a call of `download` means
unfoldable pub grant_ref : DownloadArgs → BdcSession → Option GrantRef
grant_ref args s = elim (present args.grant_id) [
  | some grant_id ↦ get_grant grant_id s
  | none ↦ elim (present args.offer_id) [
    | some offer_id ↦ latest_grant_for_offer offer_id s
    | none ↦ none
  ]
]

-- what is recorded of a grant that was confirmed
unfoldable pub new_grant_ref : OfferRef → String → String → ConfirmResponse → GrantRef
unfolding string_of access_url_from_contract
new_grant_ref o offer_id grant_id c = record {
  grant_id = grant_id;
  signed_grant = c.grant;
  offer_id = offer_id;
  resource_id = string_of o.resource_id;
  bpp_uri = o.bpp_uri;
  access_url = some (
      or_else (access_url_from_contract c.contract)
        (fallback_url o.bpp_uri (string_of o.resource_id) offer_id));
}

unfoldable pub confirm_params :
    McpConfig → ConfirmArgs → OfferRef → LicenseClass → String → ConfirmParams
unfolding string_of
confirm_params config args o license transaction_id = record {
  transaction_id = transaction_id;
  bpp_id = o.bpp_id;
  bpp_uri = some o.bpp_uri;
  offer_id = args.offer_id;
  resource_id = string_of o.resource_id;
  grantee = record { id = config.grantee_id; public_key = none };
  purpose = args.purpose;
  license = license;
  scope = some (grant_scope args);
}

module _ {N : Type 0} (gateway : BdcGateway N) (shown : Shown) (config : McpConfig) where
  abbrev pub Answer : Type 0
  Answer = Option ToolResult × BdcSession × N

  unfoldable pub search_resources : SearchArgs → BdcSession → N → Answer
  unfolding intent_of search_reply
  search_resources args s n =
      let (response, n') = gateway.search (intent_of args) args.purpose n in
      elim response [
        | none ↦ (none, s, n')
        | some found ↦
            let (offers, s') = record_search found s in (some (search_reply offers), s', n')
      ]

  unfoldable pub view_resource : String → BdcSession → ToolResult
  unfolding resource_reply
  view_resource offer_id s = elim (get_offer offer_id s) [
    | none ↦ unknown_offer offer_id
    | some o ↦ resource_reply shown o
  ]

  -- `select` and then `init`
  unfoldable pub negotiate : OfferRef → String → String → BdcSession → N → Answer
  negotiate o offer_id transaction_id s n =
      let (draft, n') = gateway.select transaction_id o.bpp_id offer_id n in
      elim draft [
        | none ↦ (none, s, n')
        | some contract ↦
            let (active, n'') = gateway.init transaction_id o.bpp_id offer_id n' in
            elim active [
              | none ↦ (none, s, n'')
              | some contract' ↦ (some (negotiated_reply o contract contract'), s, n'')
            ]
      ]

  unfoldable pub request_access : String → BdcSession → N → Answer
  request_access offer_id s n = elim (get_offer offer_id s) [
    | none ↦ (some (unknown_offer offer_id), s, n)
    | some o ↦ elim (present s.last_transaction_id) [
      | none ↦ (some search_first, s, n)
      | some transaction_id ↦ negotiate o offer_id transaction_id s n
    ]
  ]

  -- the grant is recorded before the answer is written; a grant without an id throws
  unfoldable pub record_confirmed : OfferRef → String → ConfirmResponse → BdcSession → N → Answer
  unfolding confirmed_reply new_grant_ref
  record_confirmed o offer_id c s n =
      if is_nullish c.contract
      then (none, s, n)
      else elim (string (get "grantId" (get "claims" c.grant))) [
        | none ↦ (none, s, n)
        | some grant_id ↦ (
          confirmed_reply shown o offer_id c.grant,
          record_grant (new_grant_ref o offer_id grant_id c) s,
          n,
        )
      ]

  unfoldable pub confirm_access : ConfirmArgs → BdcSession → N → Answer
  unfolding confirm_params
  confirm_access args s n = elim (get_offer args.offer_id s) [
    | none ↦ (some (unknown_offer args.offer_id), s, n)
    | some o ↦ elim (present s.last_transaction_id) [
      | none ↦ (some search_first, s, n)
      | some transaction_id ↦ elim o.license [
        | none ↦ (some (no_license args.offer_id), s, n)
        | some license ↦
            let (response, n') =
              gateway.confirm (confirm_params config args o license transaction_id) n in
            elim response [
              | none ↦ (none, s, n')
              | some c ↦ record_confirmed o args.offer_id c s n'
            ]
      ]
    ]
  ]

  unfoldable pub list_my_grants : N → Option ToolResult × N
  unfolding list_reply
  list_my_grants n =
      let (response, n') = gateway.list_grants config.grantee_id n in
      elim response [ none ↦ (none, n') | some grants ↦ (list_reply shown grants, n') ]

  unfoldable pub revoke_grant : String → N → Option ToolResult × N
  revoke_grant grant_id n =
      let (response, n') = gateway.revoke_grant grant_id "revoked via MCP by grantee" n in
      elim response [
        | none ↦ (none, n')
        | some r ↦
            if eqb r.http_status 404
            then (some (fail ("Grant " <> grant_id <> " not found.")), n')
            else (some (revoked_reply grant_id r), n')
      ]

  module _ {F : Type 0} (files : FileSystem F) where
    unfoldable pub file_name : GrantRef → DownloadResult → String
    file_name ref res = or_else res.filename (ref.offer_id <> ".dat")

    -- the file of an answer that is ok
    unfoldable pub store_file : GrantRef → DownloadResult → N → F → Option ToolResult × N × F
    unfolding file_name downloaded_reply
    store_file ref res n f = elim (files.mkdir config.download_dir f) [
      | none ↦ (none, n, f)
      | some f' ↦
          let dest = files.join config.download_dir (file_name ref res) in
          let body = or_else res.body "" in
          elim (files.write_file dest body f') [
            | none ↦ (none, n, f')
            | some f'' ↦ (some (downloaded_reply (file_name ref res) dest body), n, f'')
          ]
    ]

    -- the grant is presented, and an answer that is ok is stored
    unfoldable pub fetch_file : GrantRef → N → F → Option ToolResult × N × F
    fetch_file ref n f =
        let (response, n') = gateway.download (url_of ref) ref.signed_grant n in
        elim response [
          | none ↦ (none, n', f)
          | some res ↦ if res.ok then store_file ref res n' f else (some (refused_reply res), n', f)
        ]

    unfoldable pub download : DownloadArgs → BdcSession → N → F → Option ToolResult × N × F
    unfolding grant_ref
    download args s n f = elim (grant_ref args s) [
      | none ↦ (some no_grant, n, f)
      | some ref ↦ fetch_file ref n f
    ]
