-- ===== src/Mcp/Tools/Calls.antt =====
-- Series of calls of the tools of services/mcp-server/src/server.ts, as a client makes them.
pub mod Presented
use beckn_data_commons.Base.{
  String, true, false, ◌==◌, ◌≡◌, refl, ◌⊎◌, inl, inr, arith, Option, none, some, List, [], ◌∷◌,
  All, Ensures, Option-cases, Bool-cases, Ensures-some, Ensures-none, if◌then◌else◌,
}
use beckn_data_commons.Js.Map.{map_get, map_set, map_values}
use beckn_data_commons.Json.{Json, get}
use beckn_data_commons.Zod.{string}
use beckn_data_commons.Auth.Header.{present}
use beckn_data_commons.Mcp.Session.{
  OfferRef, GrantRef, BdcSession, get_offer, record_search, record_grant, get_grant, latest_of,
  latest_grant_for_offer,
}
use beckn_data_commons.Mcp.Gateway.{ConfirmResponse, BdcGateway}
use beckn_data_commons.Mcp.Replies.{Shown, ToolResult, no_grant}
use beckn_data_commons.Mcp.Tools.{
  McpConfig, FileSystem, SearchArgs, ConfirmArgs, DownloadArgs, grant_ref, is_nullish,
  new_grant_ref, confirm_params, search_resources, view_resource, negotiate, request_access,
  record_confirmed, confirm_access, list_my_grants, revoke_grant, fetch_file, download,
}

pub data ToolCall : Type 0 where
  searching : SearchArgs → ToolCall
  viewing requesting revoking : String → ToolCall
  confirming : ConfirmArgs → ToolCall
  listing : ToolCall
  downloading : DownloadArgs → ToolCall

-- the session, the network and the files
abbrev pub World : Type 0 → Type 0 → Type 0
World N F = BdcSession × N × F

module _ {N F : Type 0} (gateway : BdcGateway N) (shown : Shown) (config : McpConfig)
    (files : FileSystem F) where
  unfoldable pub call_tool : ToolCall → World N F → Option ToolResult × World N F
  call_tool (searching args) (s, n, f) =
      let (r, s', n') = search_resources gateway shown config args s n in (r, (s', n', f))
  call_tool (viewing offer_id) (s, n, f) =
      (some (view_resource gateway shown config offer_id s), (s, n, f))
  call_tool (requesting offer_id) (s, n, f) =
      let (r, s', n') = request_access gateway shown config offer_id s n in (r, (s', n', f))
  call_tool (revoking grant_id) (s, n, f) =
      let (r, n') = revoke_grant gateway shown config grant_id n in (r, (s, n', f))
  call_tool (confirming args) (s, n, f) =
      let (r, s', n') = confirm_access gateway shown config args s n in (r, (s', n', f))
  call_tool listing (s, n, f) =
      let (r, n') = list_my_grants gateway shown config n in (r, (s, n', f))
  call_tool (downloading args) (s, n, f) =
      let (r, n', f') = download gateway shown config files args s n f in (r, (s, n', f'))

  unfoldable pub call_all : List ToolCall → World N F → World N F
  call_all [] w = w
  call_all (c ∷ cs) w = call_all cs (call_tool c w).1
