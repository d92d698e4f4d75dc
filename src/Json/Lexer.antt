-- ===== src/Json/Lexer.antt =====
-- The marks, words, numbers and texts that `JSON.parse` reads. A text is read as the UTF-16 units that
-- its characters and escapes stand for.
pub mod Steps
pub mod Quoted
pub mod Numerals
pub mod Printed
pub mod RoundTrip
use Prim.Native.Char.{Char, code}
use Prim.Native.String
use beckn_data_commons.Base.{
  ℕ, zero, suc, ◌+◌, ◌-◌, ◌*◌, String, Bool, true, false, ◌&&◌, ◌||◌, ◌==◌, leb, ltb, eqb, Option,
  none, some, List, [], ◌∷◌, ◌++◌, ◌>>=◌, if◌then◌else◌,
}
use beckn_data_commons.Js.{Number}
use beckn_data_commons.Js.Text.{◌<>◌, char_units}
use beckn_data_commons.Js.Numeral.{is_digit, to_number}
use beckn_data_commons.Js.Scalar.{char_of}
use beckn_data_commons.Json.Print.{
  Token, Mark, Word, null_word, true_word, false_word, mark, word, number, quoted, left_bracket,
  right_bracket, left_brace, right_brace, comma, colon,
}

-- Where a numeral stands: `-?(0|[1-9]\d*)(\.\d+)?([eE][+-]?\d+)?`.
pub data Phase : Type 0 where
  start minus leading_zero integer point decimals exponent exponent_sign exponent_digits : Phase

abbrev on_digit : ℕ → Phase → Phase → Option Phase
on_digit c p q = if eqb c b'0' then some p else if is_digit c then some q else none

abbrev on_exponent : ℕ → Option Phase
on_exponent c = if eqb c b'e' || eqb c b'E' then some exponent else none

abbrev after_integer : ℕ → Option Phase
after_integer c = if eqb c b'.' then some point else on_exponent c

unfoldable pub next_phase : Phase → ℕ → Option Phase
next_phase start c = if eqb c b'-' then some minus else on_digit c leading_zero integer
next_phase minus c = on_digit c leading_zero integer
next_phase leading_zero c = after_integer c
next_phase integer c = if is_digit c then some integer else after_integer c
next_phase point c = on_digit c decimals decimals
next_phase decimals c = if is_digit c then some decimals else on_exponent c
next_phase exponent c =
    if eqb c b'+' || eqb c b'-'
    then some exponent_sign
    else on_digit c exponent_digits exponent_digits
next_phase exponent_sign c = on_digit c exponent_digits exponent_digits
next_phase exponent_digits c = on_digit c exponent_digits exponent_digits

abbrev pub is_final : Phase → Bool
is_final leading_zero = true
is_final integer = true
is_final decimals = true
is_final exponent_digits = true
is_final _ = false

unfoldable pub is_numeral_from : Option Phase → String → Bool
unfolding next_phase
is_numeral_from none s = false
is_numeral_from (some p) String.[] = is_final p
is_numeral_from (some p) (String.◌∷◌ c s) = is_numeral_from (next_phase p (code c)) s

-- the numerals of JSON
unfoldable pub is_numeral : String → Bool
unfolding is_numeral_from
is_numeral s = is_numeral_from (some start) s

-- the text of UTF-16 units; a unit of half a pair is replaced
unfoldable pub utf16_decode : List ℕ → String
unfolding char_of
utf16_decode [] = ""
utf16_decode (u ∷ []) = String.◌∷◌ (char_of u) ""
utf16_decode (u ∷ v ∷ us) =
    let pair = String.◌∷◌ (char_of (65536 + (u - 55296) * 1024 + (v - 56320))) (utf16_decode us) in
    let single = String.◌∷◌ (char_of u) (utf16_decode (v ∷ us)) in
    if leb 55296 u && leb u 56319 && (leb 56320 v && leb v 57343) then pair else single

pub data Mode : Type 0 where
  between : Mode
  in_text : List ℕ → Mode
  escaped : List ℕ → Mode
  unicode : List ℕ → ℕ → ℕ → Mode
  in_number : String → Mode
  in_word : String → Mode

abbrev pub Step : Type 0
Step = Option (List Token × Mode)

abbrev pub moved : Mode → Step
moved m = some ([], m)

abbrev marked : Mark → Step
marked m = some (mark m ∷ [], between)

abbrev pub one : Char → String
one c = String.◌∷◌ c ""

unfoldable pub from_between : ℕ → Char → Step
from_between n c =
    if eqb n 34
    then moved (in_text [])
    else if eqb n b','
    then marked comma
    else if eqb n b':'
    then marked colon
    else if eqb n b'['
    then marked left_bracket
    else if eqb n b']'
    then marked right_bracket
    else if eqb n b'{'
    then marked left_brace
    else if eqb n b'}'
    then marked right_brace
    else if eqb n b'-' || is_digit n
    then moved (in_number (one c))
    else if leb b'a' n && leb n b'z'
    then moved (in_word (one c))
    else if eqb n 9 || eqb n 10 || eqb n 13 || eqb n 32
    then moved between
    else none

unfoldable pub from_text : List ℕ → ℕ → Step
unfolding utf16_decode
from_text us n =
    if eqb n 34
    then some (quoted (utf16_decode us) ∷ [], between)
    else if eqb n 92
    then moved (escaped us)
    else if ltb n 32
    then none
    else moved (in_text (us ++ char_units n []))

unfoldable pub from_escape : List ℕ → ℕ → Step
from_escape us n =
    if eqb n 34 || eqb n 92 || eqb n b'/'
    then moved (in_text (us ++ n ∷ []))
    else if eqb n b'b'
    then moved (in_text (us ++ 8 ∷ []))
    else if eqb n b't'
    then moved (in_text (us ++ 9 ∷ []))
    else if eqb n b'n'
    then moved (in_text (us ++ 10 ∷ []))
    else if eqb n b'f'
    then moved (in_text (us ++ 12 ∷ []))
    else if eqb n b'r'
    then moved (in_text (us ++ 13 ∷ []))
    else if eqb n b'u'
    then moved (unicode us 4 0)
    else none

unfoldable pub hex_value : ℕ → Option ℕ
hex_value n =
    if is_digit n
    then some (n - b'0')
    else if leb b'a' n && leb n b'f'
    then some (n - b'a' + 10)
    else if leb b'A' n && leb n b'F'
    then some (n - b'A' + 10)
    else none

-- the mode after a digit, of which `left` were to come
abbrev pub next_hex : List ℕ → ℕ → ℕ → Mode
next_hex us (suc (suc left)) so_far = unicode us (suc left) so_far
next_hex us _ so_far = in_text (us ++ so_far ∷ [])

-- the digits that are still to come, and the number so far
unfoldable pub from_unicode : List ℕ → ℕ → ℕ → ℕ → Step
unfolding hex_value
from_unicode us left so_far n = do d ← hex_value n; moved (next_hex us left (so_far * 16 + d))

abbrev pub is_numeric : ℕ → Bool
is_numeric n = is_digit n || eqb n b'.' || eqb n b'e' || eqb n b'E' || eqb n b'+' || eqb n b'-'

unfoldable pub word_token : String → Option Token
word_token s =
    if s == "null"
    then some (word null_word)
    else if s == "true"
    then some (word true_word)
    else if s == "false"
    then some (word false_word)
    else none

abbrev pub with_first : Token → List Token × Mode → List Token × Mode
with_first t (ts, m) = (t ∷ ts, m)

-- a word or a number ends where something else begins
abbrev pub closed_by : Option Token → ℕ → Char → Step
closed_by token n c = do t ← token; r ← from_between n c; some (with_first t r)

-- `other` reads the numerals that are not plain
module _ (other : String → Number) where
  unfoldable pub number_token : String → Option Token
  unfolding is_numeral to_number
  number_token s = if is_numeral s then some (number (to_number other s)) else none

  unfoldable pub step : Mode → Char → Step
  unfolding from_between from_text from_escape from_unicode number_token word_token
  step between c = from_between (code c) c
  step (in_text us) c = from_text us (code c)
  step (escaped us) c = from_escape us (code c)
  step (unicode us left so_far) c = from_unicode us left so_far (code c)
  step (in_number s) c =
      if is_numeric (code c)
      then moved (in_number (s <> one c))
      else closed_by (number_token s) (code c) c
  step (in_word s) c =
      if leb b'a' (code c) && leb (code c) b'z'
      then moved (in_word (s <> one c))
      else closed_by (word_token s) (code c) c

  unfoldable pub at_end : Mode → Option (List Token)
  unfolding number_token word_token
  at_end between = some []
  at_end (in_number s) = do t ← number_token s; some (t ∷ [])
  at_end (in_word s) = do t ← word_token s; some (t ∷ [])
  at_end _ = none

  unfoldable pub lex : Mode → String → Option (List Token)
  unfolding step at_end
  lex m String.[] = at_end m
  lex m (String.◌∷◌ c s) = do (ts, next) ← step m c; more ← lex next s; some (ts ++ more)
