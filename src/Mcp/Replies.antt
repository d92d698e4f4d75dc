-- ===== src/Mcp/Replies.antt =====
-- services/mcp-server/src/server.ts: the texts that the tools answer with. `Shown` is how the language
-- writes JSON, on one line and indented, and a time: `new Date(Number(v) * 1000).toISOString()`, which
-- throws for a time that is out of range.
use beckn_data_commons.Base.{
  ◌-◌, String, Bool, true, false, not, ◌==◌, Option, none, some, List, [], ◌∷◌, ◌>>=◌, length, map,
  select, take, or_else,
}
use beckn_data_commons.Js.{Number, decimal, number_text}
use beckn_data_commons.Js.Text.{◌<>◌, units, split, join}
use beckn_data_commons.Json.{Json, get, element_0}
use beckn_data_commons.Json.Texts.{string_of}
use beckn_data_commons.Domain.{LicenseClass, license_text}
use beckn_data_commons.Zod.{string}
use beckn_data_commons.Mcp.Session.{OfferRef}
use beckn_data_commons.Mcp.Gateway.{RevokeResult, DownloadResult}

pub record Shown : Type 0 where
  pub compact : Json → String
  pub pretty : Json → String
  pub iso : Json → Option String

pub record ToolResult : Type 0 where
  pub text : String
  pub is_error : Bool

abbrev pub ok : String → ToolResult
ok text = record { text = text; is_error = false }

abbrev pub fail : String → ToolResult
fail text = record { text = text; is_error = true }

abbrev not_empty : String → Bool
not_empty s = not (s == "")

abbrev text_or : String → Option String → String
text_or d o = or_else o d

abbrev rows_bit : Option Number → String
rows_bit none = ""
rows_bit (some n) = number_text n <> " rows"

abbrev license_bit : Option LicenseClass → String
license_bit none = ""
license_bit (some l) = "license:" <> license_text l

unfoldable pub offer_line : OfferRef → String
unfolding number_text join
offer_line o =
    let bits = select not_empty (
      text_or "" o.kind
      ∷ text_or "" o.modality
      ∷ rows_bit o.row_count
      ∷ license_bit o.license
      ∷ []) in
    "• " <> o.offer_id <> " — " <> o.name <> " [" <> join ", " bits <> "] from " <> o.bpp_id

-- `contractStatus`
abbrev pub contract_status : Json → String
contract_status contract = or_else (string (get "code" (get "status" contract))) "unknown"

-- `accessUrlFromContract`
unfoldable pub access_url_from_contract : Json → Option String
unfolding get
access_url_from_contract contract = string (
    get "fulfillment:accessUrl"
      (get "performanceAttributes" (element_0 (get "performance" contract))))

unfoldable pub search_reply : List OfferRef → ToolResult
unfolding offer_line decimal join
search_reply [] = ok "No matching resources found. Try broadening the query or removing filters."
search_reply (o ∷ os) = ok (
    "Found "
    <> decimal (length (o ∷ os))
    <> " resource(s):\n\n"
    <> join "\n" (map offer_line (o ∷ os))
    <> "\n\nUse view_resource for details, then confirm_access to obtain a signed Access Grant.")

abbrev pub unknown_offer : String → ToolResult
unknown_offer offer_id =
    fail ("Unknown offerId \"" <> offer_id <> "\". Run search_resources first.")

abbrev pub search_first : ToolResult
search_first = fail "Run search_resources first."

abbrev count_text : Option Number → String
count_text none = "?"
count_text (some n) = number_text n

abbrev license_word : Option LicenseClass → String
license_word none = "unknown"
license_word (some l) = license_text l

module _ (shown : Shown) where
  unfoldable pub resource_reply : OfferRef → ToolResult
  unfolding number_text
  resource_reply o = ok (
      o.name
      <> " ("
      <> o.offer_id
      <> ")\n"
      <> text_or "" o.description
      <> "\nkind: "
      <> text_or "undefined" o.kind
      <> ", modality: "
      <> text_or "undefined" o.modality
      <> ", task: "
      <> text_or "undefined" o.task_type
      <> "\nrows: "
      <> count_text o.row_count
      <> ", columns: "
      <> count_text o.column_count
      <> "\nlicense class: "
      <> license_word o.license
      <> "\nprovider: "
      <> o.bpp_id
      <> "\n\nFull metadata:\n"
      <> shown.pretty o.attributes)

  -- `none` where the time of expiry is out of range
  unfoldable pub confirmed_reply : OfferRef → String → Json → Option ToolResult
  confirmed_reply o offer_id grant =
      let claims = get "claims" grant in
      do
        expires ← shown.iso (get "expiresAt" claims)
        some (
            ok (
              "Access granted for "
              <> o.name
              <> ".\ngrant: "
              <> string_of (get "grantId" claims)
              <> "\nscope: "
              <> shown.compact (get "scope" claims)
              <> "\npurpose: "
              <> string_of (get "purpose" claims)
              <> "\nexpires: "
              <> expires
              <> "\n\nCall download with offerId \""
              <> offer_id
              <> "\" to retrieve the data."))

  abbrev grant_line : Json → Option String
  grant_line g = do
    expires ← shown.iso (get "expiresAt" g)
    some (
        "• "
        <> string_of (get "grantId" g)
        <> " ["
        <> string_of (get "status" g)
        <> "] "
        <> string_of (get "resourceId" g)
        <> " (expires "
        <> expires
        <> ")")

  unfoldable pub grant_lines : List Json → Option (List String)
  grant_lines [] = some []
  grant_lines (g ∷ gs) = do line ← grant_line g; lines ← grant_lines gs; some (line ∷ lines)

  unfoldable pub list_reply : List Json → Option ToolResult
  unfolding grant_lines join
  list_reply [] = some (ok "No grants have been issued to you yet.")
  list_reply (g ∷ gs) = do
    lines ← grant_lines (g ∷ gs)
    some (ok ("Your grants:\n" <> join "\n" lines))

abbrev pub negotiated_reply : OfferRef → Json → Json → ToolResult
negotiated_reply o draft active = ok (
    "Access negotiation for "
    <> o.name
    <> ":\n- select -> contract "
    <> contract_status draft
    <> "\n- init   -> contract "
    <> contract_status active
    <> "\n\nReady. Call confirm_access with a stated purpose to obtain a signed Access Grant.")

abbrev pub no_license : String → ToolResult
no_license offer_id =
    fail ("Offer " <> offer_id <> " has no known license class; cannot issue a grant.")

abbrev pub revoked_reply : String → RevokeResult → ToolResult
revoked_reply grant_id r = ok (
    "Grant " <> grant_id <> ": " <> r.outcome
    <> ". The provider will now reject any download with it.")

abbrev pub no_grant : ToolResult
no_grant = fail "No grant available. Run confirm_access first, or pass a grantId."

abbrev pub refused_reply : DownloadResult → ToolResult
refused_reply res = fail (
    "Download refused by the provider: HTTP "
    <> decimal res.http_status
    <> " ("
    <> or_else res.error "error"
    <> ").")

unfoldable pub downloaded_reply : String → String → String → ToolResult
unfolding units split join decimal
downloaded_reply filename dest body = ok (
    "Downloaded "
    <> filename
    <> " ("
    <> decimal (length (units body))
    <> " bytes, ~"
    <> decimal (length (select not_empty (split b'\n' body)) - 1)
    <> " rows) to:\n"
    <> dest
    <> "\n\nPreview:\n"
    <> join "\n" (take 6 (split b'\n' body)))
