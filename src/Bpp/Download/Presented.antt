-- ===== src/Bpp/Download/Presented.antt =====
-- services/bpp/src/download.ts: the text of a grant in the header `Authorization`.
pub mod RoundTrip
use Prim.Native.Char.{code}
use Prim.Native.String
use beckn_data_commons.Base.{
  String, Bool, false, ◌||◌, ◌==◌, ◌&&◌, not, Option, none, some, or_else, such_that, ◌>>=◌,
  if◌then◌else◌,
}
use beckn_data_commons.Js.{Number}
use beckn_data_commons.Js.Text.{◌<>◌, utf8}
use beckn_data_commons.Js.Space.{is_space, trim_start, trim_end, trim}
use beckn_data_commons.Js.Scalar.{utf8_decode}
use beckn_data_commons.Js.Base64.{is_letter, to_base64url, from_base64url}
use beckn_data_commons.Json.{Json, undefined}
use beckn_data_commons.Json.Texts.{without_prefix}
use beckn_data_commons.Json.Print.{json_stringify}
use beckn_data_commons.Json.Parser.{json_parse}
use beckn_data_commons.Auth.Header.{present}

unfoldable pub encode_presented_grant : Json → String
unfolding to_base64url utf8 json_stringify
encode_presented_grant signed_grant = "Grant " <> to_base64url (utf8 (json_stringify signed_grant))

-- `\s+`, and what follows it
unfoldable pub after_spaces : String → Option String
unfolding trim_start
after_spaces String.[] = none
after_spaces (String.◌∷◌ c s) = if is_space (code c) then some (trim_start s) else none

unfoldable pub after_letters : String → String
after_letters String.[] = ""
after_letters (String.◌∷◌ c s) =
    let rest = after_letters s in if is_letter (code c) then rest else String.◌∷◌ c s

-- `[A-Za-z0-9_-]+={0,2}`, the whole text
unfoldable pub is_token : String → Bool
unfolding after_letters
is_token String.[] = false
is_token (String.◌∷◌ c s) =
    let rest = after_letters s in is_letter (code c) && (rest == "" || rest == "=" || rest == "==")

-- the group of `/^Grant\s+([A-Za-z0-9_-]+={0,2})$/`
unfoldable pub grant_token : String → Option String
unfolding without_prefix after_spaces is_token
grant_token s = do rest ← without_prefix "Grant" s; such_that is_token (after_spaces rest)

module _ (other : String → Number) where
  unfoldable pub parse_presented_grant : Option String → Json
  unfolding trim_start trim_end grant_token json_parse utf8_decode from_base64url
  parse_presented_grant authorization_header =
      or_else
        (do
          header ← present authorization_header
          token ← grant_token (trim header)
          json_parse other (utf8_decode (from_base64url token)))
        undefined
