-- ===== src/Tests/Web.antt =====
-- The web application at concrete inputs.
use beckn_data_commons.Base.{String, false, ◌≡◌, ◌⊎◌, ◌==◌, Option, none, some, [], ◌∷◌}
use beckn_data_commons.Json.{Json, str, obj, field, end, get}
use beckn_data_commons.Zod.{string}
use beckn_data_commons.Auth.Header.{present}
use beckn_data_commons.Http.{Request, Response}
use beckn_data_commons.Grant.Types.{SignedAccessGrant, signed_json}
use beckn_data_commons.Grant.Parse.{parse_signed_grant}
use beckn_data_commons.Bpp.Download.Presented.{parse_presented_grant}
use beckn_data_commons.Web.Client.{Url, done, download_result, answer_of, rewrite_access_url}
use beckn_data_commons.Web.Routes.{bad_download, result_reply, download_route}
use beckn_data_commons.Web.Routes.Presented.{download_route-presented}
use beckn_data_commons.Web.Held.{HeldGrant, list_held_grants}
use beckn_data_commons.Web.Held.Kept.{keep_all, add_all, IsKept, list_held_grants-add_all}
use beckn_data_commons.Tests.Data.{plain_zod, other_numbers}
use beckn_data_commons.Tests.Provider.{held}

abbrev obtained : String → HeldGrant
obtained at = record {
  grant = held;
  access_url = "http://bpp/download";
  name = "Census";
  obtained_at = at;
}

-- the same grant obtained twice
list_held_grants-add_all_example :
    (list_held_grants other_numbers
        (add_all other_numbers (obtained "monday" ∷ obtained "tuesday" ∷ []) none)
      ≡ keep_all (obtained "monday" ∷ obtained "tuesday" ∷ []) [])
    × IsKept (
        list_held_grants other_numbers
          (add_all other_numbers (obtained "monday" ∷ obtained "tuesday" ∷ []) none))
list_held_grants-add_all_example =
    list_held_grants-add_all other_numbers (obtained "monday" ∷ obtained "tuesday" ∷ [])

-- a network that answers nothing
abbrev silent : Request → Unit {0} → Option Response × Unit {0}
silent req n = (none, n)

abbrev no_url : String → Option Url
no_url url = none

abbrev body : Json
body = obj (field "grant" (signed_json held) (field "accessUrl" (str "http://bpp/download") end))

download_route-presented_example :
    (((parse_signed_grant plain_zod (get "grant" body) ≡ none)
        ⊎ (present (string (get "accessUrl" body)) ≡ none))
      × (download_route silent no_url plain_zod "unreachable" "type" "http://bap" "http://am" none
            body tt
          ≡ (bad_download, tt)))
    ⊎ ((g : SignedAccessGrant) × (access_url : String) × (req : Request) × (parse_signed_grant
            plain_zod
            (get "grant" body)
          ≡ some g)
        × (string (get "accessUrl" body) ≡ some access_url)
        × ((access_url == "") ≡ false)
        × (download_route silent no_url plain_zod "unreachable" "type" "http://bap" "http://am" none
              body tt
            ≡ (let r =
                  answer_of silent "unreachable" "http://bap" "http://am"
                    (λ res. done (download_result res))
                    (silent req tt) in
                (result_reply r.0, r.1)))
        × (req.method ≡ "GET")
        × (req.url ≡ rewrite_access_url no_url none access_url)
        × (req.body ≡ none)
        × (parse_presented_grant other_numbers req.authorization ≡ signed_json g))
download_route-presented_example =
    download_route-presented silent no_url plain_zod "unreachable" "type" "http://bap" "http://am"
      none other_numbers body tt
