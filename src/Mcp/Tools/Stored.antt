-- ===== src/Mcp/Tools/Stored.antt =====
-- What `download` writes to the files of the client.
use beckn_data_commons.Base.{
  String, true, ◌≡◌, refl, ◌⊎◌, inl, inr, Option, none, some, Option-cases, Bool-cases, or_else,
}
use beckn_data_commons.Js.Text.{◌<>◌}
use beckn_data_commons.Js.Uri.{encode_uri_component}
use beckn_data_commons.Mcp.Session.{GrantRef}
use beckn_data_commons.Mcp.Gateway.{DownloadResult, BdcGateway}
use beckn_data_commons.Mcp.Replies.{Shown, ToolResult}
use beckn_data_commons.Mcp.Tools.{
  McpConfig, FileSystem, fallback_url, file_name, store_file, fetch_file,
}

module _ {N F : Type 0} (gateway : BdcGateway N) (shown : Shown) (config : McpConfig)
    (files : FileSystem F) where
  -- a call that threw, or answered that it failed
  abbrev pub HasFailed : Option ToolResult → Type 0
  HasFailed none = Unit
  HasFailed (some r) = r.is_error ≡ true

  -- where a file goes
  abbrev pub destination : GrantRef → DownloadResult → String
  destination ref res =
      files.join config.download_dir (or_else res.filename (ref.offer_id <> ".dat"))

  -- where a grant is presented
  abbrev pub address : GrantRef → String
  address ref = or_else ref.access_url (
      ref.bpp_uri
      <> "/download?resourceId="
      <> encode_uri_component ref.resource_id
      <> "&offerId="
      <> encode_uri_component ref.offer_id)

  -- The file that is written, between the files that the directory was made in and those that are left.
  pub record IsStored (ref : GrantRef) (n : N) (f f' : F) : Type 0 where
    pub answer : DownloadResult
    pub answered : (gateway.download (address ref) ref.signed_grant n).0 ≡ some answer
    pub is_ok : answer.ok ≡ true
    pub between : F
    pub made : files.mkdir config.download_dir f ≡ some between
    pub written :
        files.write_file (destination ref answer) (or_else answer.body "") between ≡ some f'

  store_file-network :
      (ref : GrantRef) (res : DownloadResult) (n : N) (f : F)
      → (store_file gateway shown config files ref res n f).1 ≡ n
  unfolding store_file file_name
  store_file-network ref res n f = elim (Option-cases (files.mkdir config.download_dir f)) [
    | inl unmade ↦ rw (unmade, store_file) refl
    | inr (between, made) ↦
        elim (Option-cases (files.write_file (destination ref res) (or_else res.body "") between)) [
          | inl unwritten ↦ rw (made, store_file) (rw (unwritten, store_file) refl)
          | inr (f', written) ↦ rw (made, store_file) (rw (written, store_file) refl)
        ]
  ]

  -- what a storing call leaves
  abbrev pub Stores : GrantRef → N → F → Option ToolResult × N × F → Type 0
  Stores ref n f r =
      (HasFailed r.0 × ((r.2 ≡ f) ⊎ (files.mkdir config.download_dir f ≡ some r.2)))
      ⊎ IsStored ref n f r.2

  store_file-Stores :
      (ref : GrantRef) (res : DownloadResult) (n n' : N) (f : F)
      → (gateway.download (address ref) ref.signed_grant n).0 ≡ some res
      → res.ok ≡ true
      → Stores ref n f (store_file gateway shown config files ref res n' f)
  unfolding store_file file_name
  store_file-Stores ref res n n' f answered good =
      elim (Option-cases (files.mkdir config.download_dir f)) [
        | inl unmade ↦ rw (unmade, store_file) (inl (tt, inl refl))
        | inr (between, made) ↦
            elim (Option-cases
              (files.write_file (destination ref res) (or_else res.body "") between)) [
                | inl unwritten ↦
                    rw (made, store_file) (rw (unwritten, store_file) (inl (tt, inr refl)))
                | inr (f', written) ↦
                    rw (made, store_file)
                      (rw (written, store_file)
                        (inr (record {
                          answer = res;
                          answered = answered;
                          is_ok = good;
                          between = between;
                          made = made;
                          written = written;
                        })))
              ]
      ]

  -- `download` makes one call, which presents the grant at its address, or else at its provider's for
  -- its resource and offer. When it does not fail it has written the body of an answer that is ok under
  -- the name that the answer gives, or else under the offer's with `.dat`, in the directory of
  -- downloads. When
  -- it fails it has left the files as they were, but for the directory.
  pub fetch_file-Stores :
      (ref : GrantRef) (n : N) (f : F)
      → ((fetch_file gateway shown config files ref n f).1
          ≡ (gateway.download (address ref) ref.signed_grant n).1)
        × Stores ref n f (fetch_file gateway shown config files ref n f)
  unfolding fetch_file store_file file_name fallback_url
  fetch_file-Stores ref n f =
      let call = gateway.download (address ref) ref.signed_grant n in
      elim (Option-cases call.0) [
        | inl failed ↦ rw (failed, fetch_file) (refl, inl (tt, inl refl))
        | inr (res, answered) ↦ elim (Bool-cases res.ok) [
          | inl good ↦
              rw (answered, fetch_file)
                (rw good (
                  store_file-network ref res call.1 f,
                  store_file-Stores ref res n call.1 f answered good,
                ))
          | inr bad ↦ rw (answered, fetch_file) (rw bad (refl, inl (refl, inl refl)))
        ]
      ]
