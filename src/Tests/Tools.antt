-- ===== src/Tests/Tools.antt =====
-- The tools of the server, at concrete inputs.
use beckn_data_commons.Base.{
  ℕ, ◌+◌, String, true, not, eqb, ap, ◌≡◌, ◌⊎◌, refl, Option, none, some, List, [], ◌∷◌, Ensures,
  Ensures-some,
}
use beckn_data_commons.Js.Map.{map_get, map_set, map_values}
use beckn_data_commons.Js.Text.{◌<>◌, all_chars}
use beckn_data_commons.Json.{Json, str, obj, field, end, get, get_field}
use beckn_data_commons.Zod
use beckn_data_commons.Domain.{research_only}
use beckn_data_commons.Http.{Request, Response}
use beckn_data_commons.Bpp.Download.{ResolvedFile}
use beckn_data_commons.Bpp.App.{disposition}
use beckn_data_commons.Bap.Orchestrator.Journey.{ConfirmParams}
use beckn_data_commons.Mcp.Session.{OfferRef, GrantRef, BdcSession, get_offer}
use beckn_data_commons.Mcp.Gateway.{ConfirmResponse, BdcGateway, http_gateway}
use beckn_data_commons.Mcp.Replies.{Shown, no_grant}
use beckn_data_commons.Mcp.Tools.{
  McpConfig, FileSystem, ConfirmArgs, confirm_access, fetch_file, download,
}
use beckn_data_commons.Mcp.Tools.Obtained.{
  by_offer, by_grant, obtained, obtained_at, download-confirm_access,
}
use beckn_data_commons.Mcp.Tools.Calls.{confirming, call_all}
use beckn_data_commons.Mcp.Tools.Calls.Presented.{download-call_all}
use beckn_data_commons.Mcp.Tools.Stored.{Stores, fetch_file-Stores}
use beckn_data_commons.Mcp.Tools.Named.{fetch_file-disposition}

abbrev Files : Type 0
Files = List (String × String)

abbrev disk : FileSystem Files
disk = record {
  join = λ a b. a <> "/" <> b;
  mkdir = λ dir f. some f;
  write_file = λ path body f. some (map_set path body f);
}

abbrev pub shown : Shown
shown = record {
  compact = λ v. "{}";
  pretty = λ v. "{}";
  iso = λ v. some "2026-01-01T00:00:00.000Z";
}

abbrev pub config : McpConfig
config = record { grantee_id = "lab"; download_dir = "/downloads" }

-- a grant that the platform answers with
abbrev grant : Json
grant = obj (field "claims" (obj (field "grantId" (str "g-1") end)) end)

abbrev answer : ConfirmResponse
answer = record { contract = obj end; grant = grant }

-- a network that counts its calls
abbrev gateway : BdcGateway ℕ
gateway = record {
  search = λ intent purpose n. (none, n + 1);
  select = λ t b o n. (some (obj end), n + 1);
  init = λ t b o n. (some (obj end), n + 1);
  confirm = λ params n. (some answer, n + 1);
  list_grants = λ grantee n. (some [], n + 1);
  revoke_grant = λ id reason n. (none, n + 1);
  download = λ url presented n. (
    some (record {
      ok = true;
      http_status = 200;
      content_type = some "text/csv";
      filename = none;
      body = some "age";
      error = none;
    }),
    n + 1,
  );
}

abbrev offer : OfferRef
offer = record {
  offer_id = "offer-1";
  bpp_id = "bpp";
  bpp_uri = "http://bpp";
  resource_id = str "census";
  name = "Census";
  description = none;
  kind = none;
  modality = none;
  task_type = none;
  license = some research_only;
  row_count = none;
  column_count = none;
  attributes = obj end;
}

abbrev searched : BdcSession
searched = record {
  last_transaction_id = some "t-1";
  offers = ("offer-1", offer) ∷ [];
  grants = [];
}

abbrev wanted : ConfirmArgs
wanted = record { offer_id = "offer-1"; purpose = "study"; scope = none; fields = none }

offer-known : get_offer "offer-1" searched ≡ some offer
unfolding get_offer map_get
offer-known = refl

grant-named : Zod.string (get "grantId" (get "claims" grant)) ≡ some "g-1"
unfolding get get_field
grant-named = refl

grant-new : map_get "g-1" searched.grants ≡ none
unfolding map_get
grant-new = refl

download-confirm_access_example :
    (let after = confirm_access gateway shown config wanted searched 0 in
      let ref = obtained offer "offer-1" "g-1" answer in
      (download gateway shown config disk (by_offer "offer-1") after.1 after.2 []
        ≡ fetch_file gateway shown config disk ref after.2 [])
      × (download gateway shown config disk (by_grant "g-1") after.1 after.2 []
          ≡ fetch_file gateway shown config disk ref after.2 [])
      × ((fetch_file gateway shown config disk ref after.2 []).1
          ≡ (gateway.download (obtained_at offer "offer-1" answer.contract) grant after.2).1)
      × Stores gateway shown config disk ref after.2 []
          (fetch_file gateway shown config disk ref after.2 []))
download-confirm_access_example =
    download-confirm_access gateway shown config disk wanted offer "t-1" research_only answer "g-1"
      searched 0 [] offer-known refl refl refl refl grant-named refl refl grant-new

confirm-answers :
    (p : ConfirmParams) (n : ℕ) → Ensures (λ c. c.grant ≡ grant) (gateway.confirm p n).0
confirm-answers p n = Ensures-some (λ (c : ConfirmResponse). c.grant ≡ grant) answer refl

none-held : map_values searched.grants ≡ []
unfolding map_values
none-held = refl

download-call_all_example :
    (let (s, n, f) =
        call_all gateway shown config disk (confirming wanted ∷ []) (searched, 0, []) in
      let result = download gateway shown config disk (by_offer "offer-1") s n f in
      (result ≡ (some no_grant, n, f))
      ⊎ ((ref : GrantRef) × (ref.signed_grant ≡ grant)
          × (result ≡ fetch_file gateway shown config disk ref n f)))
download-call_all_example =
    download-call_all gateway shown config disk (λ g. g ≡ grant) confirm-answers
      (confirming wanted ∷ []) (by_offer "offer-1") (searched, 0, []) none-held

abbrev held : GrantRef
held = record {
  grant_id = "g-1";
  signed_grant = grant;
  offer_id = "offer-1";
  resource_id = "census";
  bpp_uri = "http://bpp";
  access_url = some "http://bpp/download?resourceId=census";
}

fetch_file-Stores_example :
    ((fetch_file gateway shown config disk held 0 []).1 ≡ 1)
    × Stores gateway shown config disk held 0 [] (fetch_file gateway shown config disk held 0 [])
fetch_file-Stores_example = fetch_file-Stores gateway shown config disk held 0 []

-- a file whose name leaves the directory of downloads
abbrev outside : ResolvedFile
outside = record { path = "/data/a.csv"; filename = "../a.csv"; content_type = "text/csv" }

abbrev sent : Response
sent = record {
  status = 200;
  status_text = "OK";
  json = none;
  text = "age";
  content_type = some "text/csv";
  content_disposition = some (disposition outside);
}

abbrev fetch : Request → ℕ → Option Response × ℕ
fetch req n = (some sent, n + 1)

outside-plain : all_chars (λ c. not (eqb c 34)) "../a.csv" ≡ true
unfolding all_chars
outside-plain = refl

written : map_set {V = String} "/downloads/../a.csv" "age" [] ≡ ("/downloads/../a.csv", "age") ∷ []
unfolding map_set
written = refl

fetch_file-disposition_example :
    (fetch_file (http_gateway fetch "http://bap" "http://am") shown config disk held 0 []).2
    ≡ ("/downloads/../a.csv", "age") ∷ []
fetch_file-disposition_example =
    fetch_file-disposition shown config disk fetch "http://bap" "http://am" held outside sent 0 []
      [] (("/downloads/../a.csv", "age") ∷ []) refl refl refl outside-plain refl refl
      (ap some written)
