-- ===== src/Js/Base64.antt =====
-- Node's `base64url`: bytes to texts and back.
pub mod RoundTrip
use Prim.Native.Char.{Char, code}
use Prim.Native.String
use Prim.Native.String.{char_at}
use beckn_data_commons.Base.{
  ℕ, ◌+◌, ◌-◌, ◌*◌, ◌/◌, ◌%◌, String, Bool, ◌&&◌, ◌||◌, leb, ltb, eqb, Option, none, some, List, [],
  ◌∷◌, if◌then◌else◌,
}

unfoldable pub letter : ℕ → Char
letter n = char_at "ABCDEFGHIJKLMNOPQRSTUVWXYZabcdefghijklmnopqrstuvwxyz0123456789-_" n

-- `[A-Za-z0-9_-]`
abbrev pub is_letter : ℕ → Bool
is_letter c =
    leb b'A' c && leb c b'Z'
    || leb b'a' c && leb c b'z'
    || leb b'0' c && leb c b'9'
    || eqb c b'_'
    || eqb c b'-'

-- `bytes.toString('base64url')`: no `=` is added
unfoldable pub to_base64url : List ℕ → String
unfolding letter
to_base64url [] = ""
to_base64url (a ∷ []) = String.◌∷◌ (letter (a / 4)) (String.◌∷◌ (letter (a % 4 * 16)) "")
to_base64url (a ∷ b ∷ []) =
    String.◌∷◌ (letter (a / 4))
      (String.◌∷◌ (letter (a % 4 * 16 + b / 16)) (String.◌∷◌ (letter (b % 16 * 4)) ""))
to_base64url (a ∷ b ∷ c ∷ bs) = String.◌∷◌ (letter (a / 4)) (
    String.◌∷◌ (letter (a % 4 * 16 + b / 16))
      (String.◌∷◌ (letter (b % 16 * 4 + c / 64)) (String.◌∷◌ (letter (c % 64)) (to_base64url bs))))

-- the six bits of a letter, of either alphabet of Base64
unfoldable pub bits_of : ℕ → Option ℕ
bits_of c =
    if leb b'A' c && leb c b'Z'
    then some (c - b'A')
    else if leb b'a' c && leb c b'z'
    then some (c - b'a' + 26)
    else if leb b'0' c && leb c b'9'
    then some (c - b'0' + 52)
    else if eqb c b'-' || eqb c b'+'
    then some 62
    else if eqb c b'_' || eqb c b'/'
    then some 63
    else none

abbrev pub bits_before : Option ℕ → List ℕ → List ℕ
bits_before none bits = bits
bits_before (some n) bits = n ∷ bits

-- what is no letter is passed over, and `=` ends the text
unfoldable pub sextets : String → List ℕ
unfolding bits_of
sextets String.[] = []
sextets (String.◌∷◌ c s) =
    let rest = bits_before (bits_of (code c)) (sextets s) in if eqb (code c) b'=' then [] else rest

-- bits that do not make a byte are dropped
unfoldable pub bytes_of : List ℕ → List ℕ
bytes_of [] = []
bytes_of (w ∷ []) = []
bytes_of (w ∷ x ∷ []) = (w * 4 + x / 16) ∷ []
bytes_of (w ∷ x ∷ y ∷ []) = (w * 4 + x / 16) ∷ (x % 16 * 16 + y / 4) ∷ []
bytes_of (w ∷ x ∷ y ∷ z ∷ rest) =
    (w * 4 + x / 16) ∷ (x % 16 * 16 + y / 4) ∷ (y % 4 * 64 + z) ∷ bytes_of rest

-- `Buffer.from(s, 'base64url')`
unfoldable pub from_base64url : String → List ℕ
unfolding bytes_of sextets
from_base64url s = bytes_of (sextets s)
