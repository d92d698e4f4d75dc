-- ===== src/Bap/Config.antt =====
-- services/bap/src/config.ts: the list of providers. A thrown error is `none`.
use beckn_data_commons.Base.{
  String, ◌==◌, ◌||◌, Option, none, some, List, [], ◌∷◌, ◌>>=◌, if◌then◌else◌,
}
use beckn_data_commons.Js.Space.{trim_start, trim_end, trim}
use beckn_data_commons.Js.Text.{split}
use beckn_data_commons.Js.Uri.{without_slash}
use beckn_data_commons.Auth.Registry.{listed}
use beckn_data_commons.Bap.Orchestrator.Journey.{BppEndpoint}

-- `const [bppId, uri] = pair.split('=')`, both of them not empty
unfoldable pub endpoint_of : List String → Option BppEndpoint
unfolding trim_start trim_end without_slash
endpoint_of (bpp_id ∷ uri ∷ rest) =
    if bpp_id == "" || uri == ""
    then none
    else some (record { bpp_id = trim bpp_id; uri = without_slash (trim uri) })
endpoint_of _ = none

unfoldable pub endpoints_of : List String → Option (List BppEndpoint)
unfolding endpoint_of split
endpoints_of [] = some []
endpoints_of (pair ∷ pairs) = do
  b ← endpoint_of (split b'=' pair)
  bs ← endpoints_of pairs
  some (b ∷ bs)

unfoldable pub parse_bpps : String → Option (List BppEndpoint)
unfolding endpoints_of split trim_start trim_end
parse_bpps spec = endpoints_of (listed spec)
