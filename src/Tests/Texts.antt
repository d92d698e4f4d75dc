-- ===== src/Tests/Texts.antt =====
-- Canonical texts and headers at concrete inputs.
use beckn_data_commons.Base.{String, true, ◌≡◌, ◌≢◌, refl, none, some, eq_iff}
use beckn_data_commons.Js.{nat, decimal}
use beckn_data_commons.Js.Text.{all_chars}
use beckn_data_commons.Json.{Json, bool, num, str, obj, field, end, wire, undefined}
use beckn_data_commons.Json.Parser.{json_parse}
use beckn_data_commons.Canonical.{canonical_json}
use beckn_data_commons.Canonical.Order.{in_obj, swap, canonical_json-Reordered}
use beckn_data_commons.Canonical.Wire.{canonical_json-wire}
use beckn_data_commons.Auth.Header.{parse_header, print_header}
use beckn_data_commons.Auth.Header.RoundTrip.{IsFieldText, parse_header-print_header}
use beckn_data_commons.Tests.Data.{other_numbers}

abbrev first_key : String
first_key = "b"

first_key-ne : first_key ≢ "a"
first_key-ne e = cc ((eq_iff first_key "a").1 e)

abbrev b_then_a : Json
b_then_a = obj (field "b" (num (nat 1)) (field "a" (str "x") end))

abbrev a_then_b : Json
a_then_b = obj (field "a" (str "x") (field "b" (num (nat 1)) end))

canonical_json-Reordered_example : canonical_json b_then_a ≡ canonical_json a_then_b
canonical_json-Reordered_example =
    canonical_json-Reordered (in_obj (swap "b" "a" (num (nat 1)) (str "x") end first_key-ne))

canonical_json-wire_example :
    (text : String) × (canonical_json (wire (obj (field "b" undefined end))) ≡ some text)
canonical_json-wire_example = canonical_json-wire (obj (field "b" undefined end))

bap-IsFieldText : IsFieldText "bap"
unfolding all_chars
bap-IsFieldText = (refl, refl)

parse_header-print_header_example :
    parse_header other_numbers (print_header "bap" (decimal 90) (decimal 120) "bap" "bap")
    ≡ some (record {
      key_id = "bap";
      created = nat 90;
      expires = nat 120;
      nonce = "bap";
      signature = "bap";
    })
parse_header-print_header_example =
    parse_header-print_header other_numbers "bap" "bap" "bap" 90 120 bap-IsFieldText bap-IsFieldText
      bap-IsFieldText

-- JSON with spaces, escapes and a name that comes twice
json_parse-twice :
    json_parse other_numbers "{ \"a\" : [1, -0], \"b\": \"\\u0041\\n\", \"a\": true }"
    ≡ some (obj (field "a" (bool true) (field "b" (str "A\n") end)))
unfolding json_parse
json_parse-twice = refl

json_parse-leading_zero : json_parse other_numbers "01" ≡ none
unfolding json_parse
json_parse-leading_zero = refl
