-- ===== src/Mcp/Tools/Obtained.antt =====
-- A grant from `confirm_access` to `download`.
use beckn_data_commons.Base.{String, false, ◌≡◌, refl, ◌∙◌, Option, none, some, or_else}
use beckn_data_commons.Js.Map.{map_get}
use beckn_data_commons.Js.Map.Laws.{map_get-map_set_self}
use beckn_data_commons.Js.Text.{◌<>◌}
use beckn_data_commons.Js.Uri.{encode_uri_component}
use beckn_data_commons.Json.{Json, get, element_0}
use beckn_data_commons.Json.Texts.{string_of}
use beckn_data_commons.Zod.{string}
use beckn_data_commons.Domain.{LicenseClass}
use beckn_data_commons.Auth.Header.{present}
use beckn_data_commons.Mcp.Session.{
  OfferRef, GrantRef, BdcSession, get_offer, record_grant, get_grant, latest_grant_for_offer,
}
use beckn_data_commons.Mcp.Session.Recorded.{latest_grant_for_offer-record_grant}
use beckn_data_commons.Mcp.Gateway.{ConfirmResponse, BdcGateway}
use beckn_data_commons.Mcp.Replies.{Shown, confirmed_reply, access_url_from_contract}
use beckn_data_commons.Mcp.Tools.Stored.{Stores, fetch_file-Stores}
use beckn_data_commons.Mcp.Tools.{
  McpConfig, FileSystem, ConfirmArgs, DownloadArgs, is_nullish, fallback_url, new_grant_ref,
  confirm_params, grant_ref, record_confirmed, confirm_access, fetch_file, download,
}

abbrev pub by_offer : String → DownloadArgs
by_offer offer_id = record { offer_id = some offer_id; grant_id = none }

abbrev pub by_grant : String → DownloadArgs
by_grant grant_id = record { offer_id = none; grant_id = some grant_id }

-- The address that the contract gives, or else the provider's, for the offer's resource.
abbrev pub obtained_at : OfferRef → String → Json → String
obtained_at o offer_id contract =
    or_else
      (string (
        get "fulfillment:accessUrl"
          (get "performanceAttributes" (element_0 (get "performance" contract)))))
      (o.bpp_uri
        <> "/download?resourceId="
        <> encode_uri_component (string_of o.resource_id)
        <> "&offerId="
        <> encode_uri_component offer_id)

-- the grant of a confirmation, as the session should hold it
abbrev pub obtained : OfferRef → String → String → ConfirmResponse → GrantRef
obtained o offer_id grant_id c = record {
  grant_id = grant_id;
  signed_grant = c.grant;
  offer_id = offer_id;
  resource_id = string_of o.resource_id;
  bpp_uri = o.bpp_uri;
  access_url = some (obtained_at o offer_id c.contract);
}

recorded_in :
    (ref : GrantRef) (s : BdcSession) → get_grant ref.grant_id (record_grant ref s) ≡ some ref
unfolding get_grant record_grant
recorded_in ref s = map_get-map_set_self ref.grant_id ref s.grants

grant_ref-by_offer :
    (offer_id : String) (s : BdcSession)
    → present (some offer_id) ≡ some offer_id
    → grant_ref (by_offer offer_id) s ≡ latest_grant_for_offer offer_id s
unfolding grant_ref
grant_ref-by_offer offer_id s given = rw (given, grant_ref) refl

grant_ref-by_grant :
    (grant_id : String) (s : BdcSession)
    → present (some grant_id) ≡ some grant_id
    → grant_ref (by_grant grant_id) s ≡ get_grant grant_id s
unfolding grant_ref
grant_ref-by_grant grant_id s given = rw (given, grant_ref) refl

module _ {N F : Type 0} (gateway : BdcGateway N) (shown : Shown) (config : McpConfig)
    (files : FileSystem F) where
  module _ (args : ConfirmArgs) (o : OfferRef) (transaction_id : String) (license : LicenseClass)
      (c : ConfirmResponse) (grant_id : String) (s : BdcSession) (n : N) where
    abbrev confirmed : Option ConfirmResponse × N
    confirmed = gateway.confirm (confirm_params config args o license transaction_id) n

    -- A confirmation that the gateway answers.
    confirm_access_confirmed :
        get_offer args.offer_id s ≡ some o
        → present s.last_transaction_id ≡ some transaction_id
        → o.license ≡ some license
        → confirmed.0 ≡ some c
        → is_nullish c.contract ≡ false
        → string (get "grantId" (get "claims" c.grant)) ≡ some grant_id
        → confirm_access gateway shown config args s n ≡ (
          confirmed_reply shown o args.offer_id c.grant,
          record_grant (new_grant_ref o args.offer_id grant_id c) s,
          confirmed.1,
        )
    unfolding confirm_access record_confirmed
    confirm_access_confirmed offered searched licensed answered contracted named =
        rw (offered, confirm_access)
          (rw (searched, confirm_access)
            (rw (licensed, confirm_access)
              (rw answered (rw contracted (rw (named, record_confirmed))))))

    -- When the gateway answers a confirmation with a contract and a grant whose id is new to the
    -- session, `download` for the offer, and `download` for the grant's id, do the same: they make one
    -- call, which presents that grant at the address of the contract, or at the provider's for the
    -- offer's resource when the contract names none, and store what comes or fail.
    pub download-confirm_access :
        (f : F)
        → get_offer args.offer_id s ≡ some o
        → present s.last_transaction_id ≡ some transaction_id
        → o.license ≡ some license
        → confirmed.0 ≡ some c
        → is_nullish c.contract ≡ false
        → string (get "grantId" (get "claims" c.grant)) ≡ some grant_id
        → present (some args.offer_id) ≡ some args.offer_id
        → present (some grant_id) ≡ some grant_id
        → map_get grant_id s.grants ≡ none
        → (let after = confirm_access gateway shown config args s n in
            let ref = obtained o args.offer_id grant_id c in
            (download gateway shown config files (by_offer args.offer_id) after.1 after.2 f
              ≡ fetch_file gateway shown config files ref after.2 f)
            × (download gateway shown config files (by_grant grant_id) after.1 after.2 f
                ≡ fetch_file gateway shown config files ref after.2 f)
            × ((fetch_file gateway shown config files ref after.2 f).1
                ≡ (gateway.download (obtained_at o args.offer_id c.contract) c.grant after.2).1)
            × Stores gateway shown config files ref after.2 f
                (fetch_file gateway shown config files ref after.2 f))
    unfolding download new_grant_ref fallback_url access_url_from_contract
    download-confirm_access f offered searched licensed answered contracted named offer_id_given
          grant_id_given new =
        let ref = new_grant_ref o args.offer_id grant_id c in
        let by_offer_id : grant_ref (by_offer args.offer_id) (record_grant ref s) ≡ some ref =
          grant_ref-by_offer args.offer_id _ offer_id_given
          ∙ latest_grant_for_offer-record_grant ref s new in
        let by_grant_id : grant_ref (by_grant grant_id) (record_grant ref s) ≡ some ref =
          grant_ref-by_grant grant_id _ grant_id_given ∙ recorded_in ref s in
        let (called, stored) =
          fetch_file-Stores gateway shown config files (obtained o args.offer_id grant_id c)
            confirmed.1 f in
        rw (confirm_access_confirmed offered searched licensed answered contracted named)
          (rw (by_offer_id, download) refl, rw (by_grant_id, download) refl, called, stored)
