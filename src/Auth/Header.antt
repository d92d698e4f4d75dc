-- ===== src/Auth/Header.antt =====
-- The `Authorization` header of a message: how it is written and how it is parsed.
pub mod RoundTrip
use Prim.Native.Char.{Char, code}
use Prim.Native.String
use Prim.Native.String.{slice, len}
use text.Mathlib.Text.{starts_with, find?}
use beckn_data_commons.Base.{
  ℕ, ◌+◌, String, Bool, true, false, not, ◌&&◌, ◌||◌, Option, none, some, List, [], ◌∷◌, ◌==◌, leb,
  eqb, ltb, or_else, ◌>>=◌, ◌>>◌, guard, if◌then◌else◌,
}
use beckn_data_commons.Js.Space.{is_space}
use beckn_data_commons.Js.{Number, is_finite}
use beckn_data_commons.Js.Numeral.{to_number}

infixr 65 ◌++◌
abbrev pub ◌++◌ : String → String → String
a ++ b = String.◌++◌ a b

pub record ParsedHeader : Type 0 where
  pub key_id : String
  pub created : Number
  pub expires : Number
  pub nonce : String
  pub signature : String

abbrev pub not_quote : ℕ → Bool
not_quote c = not (eqb c b'"')

-- `name="value"`, before the rest
abbrev pub param : String → String → String → String
param opening v rest = opening ++ v ++ "\"" ++ rest

-- the header that `signMessage` returns, with the two times in decimal
unfoldable pub print_header : String → String → String → String → String → String
print_header key_id created expires nonce signature =
    "Signature "
    ++ param "keyId=\"" key_id (
        param ",algorithm=\"" "ed25519" (
          param ",created=\"" created (
            param ",expires=\"" expires
              (param ",nonce=\"" nonce (param ",signature=\"" signature "")))))

-- `\w`
abbrev pub is_word : ℕ → Bool
is_word c =
    leb b'a' c && leb c b'z' || leb b'A' c && leb c b'Z' || leb b'0' c && leb c b'9' || eqb c b'_'

abbrev pub push : String → Char → String
push s c = s ++ String.◌∷◌ c String.[]

-- where the search for `(\w+)="([^"]*)"` is: in a run of word characters, after `name=`, or in a
-- quoted value
pub data Mode : Type 0 where
  word : String → Mode
  equals : String → Mode
  value : String → String → Mode

abbrev pub next_mode : Mode → ℕ → Char → Mode
next_mode (word w) n c =
    if is_word n then word (push w c) else if eqb n b'=' && not (w == "") then equals w else word ""
next_mode (equals w) n c =
    if eqb n b'"' then value w "" else if is_word n then word (push "" c) else word ""
next_mode (value w v) n c = if eqb n b'"' then word "" else value w (push v c)

-- a match ends with the quote that closes its value
abbrev pub found : Mode → ℕ → List (String × String) → List (String × String)
found (value w v) n rest = if eqb n b'"' then (w, v) ∷ rest else rest
found _ n rest = rest

-- `matchAll`, over the characters. A value that no quote closes leaves no quote for a later match.
unfoldable pub matches : Mode → String → List (String × String)
matches mode String.[] = []
matches mode (String.◌∷◌ c s) = found mode (code c) (matches (next_mode mode (code c) c) s)

-- `params[key]` after the loop: the last match of a name counts
unfoldable pub last_param : String → List (String × String) → Option String
last_param key [] = none
last_param key ((k, v) ∷ m) = elim (last_param key m) [
  | none ↦ if k == key then some v else none
  | some later ↦ some later
]

-- `!value` rejects the absent and the empty
abbrev pub present : Option String → Option String
present none = none
present (some v) = if v == "" then none else some v

abbrev lower_letter : ℕ → ℕ
lower_letter c = if leb b'A' c && leb c b'Z' then c + 32 else c

-- `/^Signature\s/i`; the long s and the Kelvin sign do not fold to ASCII letters without the `u` flag
unfoldable pub has_scheme : String → String → Bool
has_scheme String.[] String.[] = false
has_scheme String.[] (String.◌∷◌ c s) = is_space (code c)
has_scheme (String.◌∷◌ p ps) String.[] = false
has_scheme (String.◌∷◌ p ps) (String.◌∷◌ c s) =
    eqb (code p) (lower_letter (code c)) && has_scheme ps s

-- what follows the first space, or the whole text if there is none
unfoldable pub after_space : String → Option String
after_space String.[] = none
after_space (String.◌∷◌ c s) = let rest = after_space s in if eqb (code c) 32 then some s else rest

abbrev finite : Number → Option Number
finite x = if is_finite x then some x else none

abbrev algorithm_ok : Option String → Bool
algorithm_ok none = true
algorithm_ok (some a) = a == "" || a == "ed25519"

unfoldable pub parse_params : (String → Number) → List (String × String) → Option ParsedHeader
unfolding last_param
parse_params other params = do
  key_id ← present (last_param "keyId" params)
  created ← present (last_param "created" params)
  expires ← present (last_param "expires" params)
  nonce ← present (last_param "nonce" params)
  signature ← present (last_param "signature" params)
  guard (algorithm_ok (last_param "algorithm" params))
  created_n ← finite (to_number other created)
  expires_n ← finite (to_number other expires)
  some (record {
    key_id = key_id;
    created = created_n;
    expires = expires_n;
    nonce = nonce;
    signature = signature;
  })

unfoldable pub parse_header : (String → Number) → String → Option ParsedHeader
unfolding has_scheme after_space parse_params
parse_header other header =
    if has_scheme "signature" header
    then parse_params other (matches (word "") (or_else (after_space header) header))
    else none
