-- ===== src/Mcp/Tools/Named.antt =====
-- Who names the file that `download` writes.
use beckn_data_commons.Base.{String, true, false, ◌==◌, ◌≡◌, refl, ap, Option, some, or_else}
use beckn_data_commons.Js.Text.{◌<>◌}
use beckn_data_commons.Json.{Json}
use beckn_data_commons.Bpp.Download.{ResolvedFile}
use beckn_data_commons.Bpp.App.{disposition}
use beckn_data_commons.Mcp.Session.{GrantRef}
use beckn_data_commons.Mcp.Gateway
use beckn_data_commons.Http.{Request, Response, is_ok}
use beckn_data_commons.Mcp.Gateway.{
  DownloadResult, BdcGateway, download_result, download_request, http_gateway,
}
use beckn_data_commons.Mcp.Gateway.Headers.{HasNoQuote, download_result-sent}
use beckn_data_commons.Mcp.Replies.{Shown}
use beckn_data_commons.Mcp.Tools.{McpConfig, FileSystem, url_of, file_name, store_file, fetch_file}

module _ {N F : Type 0} (shown : Shown) (config : McpConfig) (files : FileSystem F) where
  store_file-named :
      (gateway : BdcGateway N) (ref : GrantRef) (res : DownloadResult) (name body : String) (n : N)
      (f between f' : F)
      → res.filename ≡ some name
      → res.body ≡ some body
      → files.mkdir config.download_dir f ≡ some between
      → files.write_file (files.join config.download_dir name) body between ≡ some f'
      → (store_file gateway shown config files ref res n f).2 ≡ f'
  unfolding store_file file_name
  store_file-named gateway ref res name body n f between f' named bodied made written =
      let name_lem : file_name gateway shown config files ref res ≡ name =
        ap (λ o. or_else o (ref.offer_id <> ".dat")) named in
      let body_lem : or_else res.body "" ≡ body = ap (λ o. or_else o "") bodied in
      rw (made, store_file) (rw (name_lem, body_lem) (rw written refl))

  module _ (fetch : Request → N → Option Response × N) (bap_url am_url : String) where
    download-answered :
        (url : String) (grant : Json) (res : Response) (n : N)
        → (fetch (download_request fetch bap_url am_url url grant) n).0 ≡ some res
        → (Gateway.download fetch bap_url am_url url grant n).0 ≡ some (download_result res)
    unfolding Gateway.download
    download-answered url grant res n answered = rw (answered, Gateway.download) refl

    -- The provider names the file: what it sends is written under the name of its header, joined to
    -- the directory of downloads, whatever that name is but empty or with a quote in it.
    pub fetch_file-disposition :
        (ref : GrantRef) (file : ResolvedFile) (res : Response) (n : N) (f between f' : F)
        → (fetch (download_request fetch bap_url am_url (url_of ref) ref.signed_grant) n).0
          ≡ some res
        → is_ok res ≡ true
        → res.content_disposition ≡ some (disposition file)
        → HasNoQuote file.filename
        → (file.filename == "") ≡ false
        → files.mkdir config.download_dir f ≡ some between
        → files.write_file (files.join config.download_dir file.filename) res.text between ≡ some f'
        → (fetch_file (http_gateway fetch bap_url am_url) shown config files ref n f).2 ≡ f'
    unfolding fetch_file download_result
    fetch_file-disposition ref file res n f between f' answered good headed plain given made
          written =
        let read = download_result-sent file res good headed plain given in
        rw (download-answered (url_of ref) ref.signed_grant res n answered, fetch_file)
          (rw (read.0, fetch_file)
            (store_file-named (http_gateway fetch bap_url am_url) ref (download_result res)
              file.filename res.text _ f between f' read.1 read.2 made written))
