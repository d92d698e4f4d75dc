-- ===== src/Js/Uri.antt =====
-- Parts of addresses: `encodeURIComponent`, and an address without its last slash.
use Prim.Native.Char.{Char, code}
use Prim.Native.String
use Prim.Native.String.{char_at}
use beckn_data_commons.Base.{
  ℕ, ◌/◌, ◌%◌, String, Bool, ◌==◌, ◌&&◌, ◌||◌, leb, List, [], ◌∷◌, eqb, if◌then◌else◌,
}
use beckn_data_commons.Js.Text.{utf8}

abbrev is_unreserved : ℕ → Bool
is_unreserved c =
    leb b'a' c && leb c b'z'
    || leb b'A' c && leb c b'Z'
    || leb b'0' c && leb c b'9'
    || eqb c b'-'
    || eqb c b'_'
    || eqb c b'.'
    || eqb c b'!'
    || eqb c b'~'
    || eqb c b'*'
    || eqb c b'('
    || eqb c b')'
    || eqb c 39

abbrev hex_digit : ℕ → Char
hex_digit d = char_at "0123456789ABCDEF" d

unfoldable pub percent : List ℕ → String → String
percent [] rest = rest
percent (b ∷ bs) rest =
    String.◌++◌ "%"
      (String.◌∷◌ (hex_digit (b / 16)) (String.◌∷◌ (hex_digit (b % 16)) (percent bs rest)))

unfoldable pub encode_uri_component : String → String
unfolding percent utf8
encode_uri_component String.[] = ""
encode_uri_component (String.◌∷◌ c s) =
    let rest = encode_uri_component s in
    if is_unreserved (code c)
    then String.◌∷◌ c rest
    else percent (utf8 (String.◌∷◌ c String.[])) rest

-- `.replace(/\/$/, '')`
unfoldable pub without_slash : String → String
without_slash String.[] = ""
without_slash (String.◌∷◌ c s) =
    let rest = without_slash s in
    if eqb (code c) b'/' then (if s == "" then "" else String.◌∷◌ c rest) else String.◌∷◌ c rest
