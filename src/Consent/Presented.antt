-- ===== src/Consent/Presented.antt =====
-- services/mcp-server/src/gateway.ts and services/bpp/src/app.ts: a grant on its way from the client
-- that presents it to the provider that redeems it.
use beckn_data_commons.Base.{ℕ, String, some, ◌≡◌, refl, ◌∙◌, ap, false, ◌==◌}
use beckn_data_commons.Js.{Number}
use beckn_data_commons.Json.{Json}
use beckn_data_commons.Ed25519.{Noble}
use beckn_data_commons.Zod.{Zod}
use beckn_data_commons.Grant.Types.{SignedAccessGrant, signed_json}
use beckn_data_commons.Grant.Types.ReadBack.{read_back-signed_json, NumbersRead-signed_json}
use beckn_data_commons.Bpp.Stores.{RevocationStore, RedemptionStore}
use beckn_data_commons.Bpp.Download.{redeem_grant}
use beckn_data_commons.Bpp.Download.Presented.{encode_presented_grant, parse_presented_grant}
use beckn_data_commons.Bpp.Download.Presented.RoundTrip.{
  parse_presented_grant-encode_presented_grant,
}
use beckn_data_commons.Bpp.App.{
  DownloadQuery, DownloadConfig, params_of, reply_of, download_with, get_download,
}
use beckn_data_commons.Mcp.Gateway.{encode_grant_header}

same_header : (v : Json) → encode_grant_header v ≡ encode_presented_grant v
unfolding encode_grant_header encode_presented_grant
same_header v = refl

-- What the client writes into the header for a signed grant, the provider reads as that grant.
pub parse_presented_grant-encode_grant_header :
    (other : String → Number) (g : SignedAccessGrant)
    → parse_presented_grant other (some (encode_grant_header (signed_json g))) ≡ signed_json g
parse_presented_grant-encode_grant_header other g =
    ap (λ h. parse_presented_grant other (some h)) (same_header (signed_json g))
    ∙ parse_presented_grant-encode_presented_grant other (signed_json g)
        (NumbersRead-signed_json other g)
    ∙ read_back-signed_json g

module _ {R C : Type 0} (revocations : RevocationStore R) (redemptions : RedemptionStore C)
    (noble : Noble) (zod : Zod) (config : DownloadConfig) (other : String → Number) where
  download_with-signed_json :
      (g : SignedAccessGrant) (q : DownloadQuery) (resource_id : String) (now_ms : ℕ) (ledger : R)
      (counts : C)
      → q.resource_id ≡ some resource_id
      → (resource_id == "") ≡ false
      → download_with revocations redemptions noble zod config other
          (signed_json g)
          q
          now_ms
          ledger
          counts
        ≡ (let r =
              redeem_grant revocations redemptions noble zod
                (params_of config q (signed_json g) resource_id now_ms)
                ledger
                counts in
            (reply_of r.0, r.1))
  unfolding download_with signed_json
  download_with-signed_json g q resource_id now_ms ledger counts asked given =
      rw (asked, given) refl

  -- GET /download, with the header that the client writes for a signed grant and the id of a resource,
  -- answers as the redemption of that grant does, for the resource, the offer and the fields of the
  -- query, and leaves the counts as it does.
  pub get_download-encode_grant_header :
      (g : SignedAccessGrant) (q : DownloadQuery) (resource_id : String) (now_ms : ℕ) (ledger : R)
      (counts : C)
      → q.resource_id ≡ some resource_id
      → (resource_id == "") ≡ false
      → get_download revocations redemptions noble zod config other
          (some (encode_grant_header (signed_json g)))
          q
          now_ms
          ledger
          counts
        ≡ (let r =
              redeem_grant revocations redemptions noble zod
                (params_of config q (signed_json g) resource_id now_ms)
                ledger
                counts in
            (reply_of r.0, r.1))
  unfolding get_download
  get_download-encode_grant_header g q resource_id now_ms ledger counts asked given =
      ap
        (λ grant.
          download_with revocations redemptions noble zod config other grant q now_ms ledger counts)
        (parse_presented_grant-encode_grant_header other g)
      ∙ download_with-signed_json g q resource_id now_ms ledger counts asked given
