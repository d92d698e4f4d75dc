-- ===== src/Json/Parser.antt =====
-- `JSON.parse`. A text that is no JSON is an error, `none`. Of two properties with one name the later
-- value counts, in the place of the earlier. Names that are array indices are not moved to the front.
pub mod RoundTrip
use beckn_data_commons.Base.{String, true, false, Option, none, some, List, [], ◌∷◌, ◌>>=◌}
use beckn_data_commons.Js.{Number}
use beckn_data_commons.Json.{
  Json, null, bool, num, str, arr, obj, Items, nil, cons, Fields, end, field, set_field, from_items,
}
use beckn_data_commons.Json.Print.{
  Token, Mark, Word, null_word, true_word, false_word, mark, word, number, quoted, left_bracket,
  right_bracket, left_brace, right_brace, comma, colon,
}
use beckn_data_commons.Json.Lexer.{between, lex}

-- the items that were read, the last one first
abbrev pub arr_of : Items → Items → Json
arr_of nil vs = arr vs
arr_of (cons w ws) vs = arr_of ws (cons w vs)

-- A value that is begun: an array with its items so far, the last one first, or an object with its
-- properties so far and the name of the next.
pub data Frame : Type 0 where
  in_array : Items → Frame
  in_object : Fields → String → Frame

-- What may come next.
pub data Expected : Type 0 where
  value value_or_close key_or_close key colon_next after_value : Expected
  whole : Json → Expected

pub record State : Type 0 where
  pub frames : List Frame
  pub expected : Expected

abbrev pub state : List Frame → Expected → State
state fs e = record { frames = fs; expected = e }

-- a value that is complete
abbrev pub put : Json → List Frame → State
put v [] = state [] (whole v)
put v (in_array vs ∷ st) = state (in_array (cons v vs) ∷ st) after_value
put v (in_object fs k ∷ st) = state (in_object (set_field k v fs) "" ∷ st) after_value

abbrev pub word_value : Word → Json
word_value null_word = null
word_value true_word = bool true
word_value false_word = bool false

abbrev pub take_value : Token → List Frame → Option State
take_value (word w) st = some (put (word_value w) st)
take_value (number n) st = some (put (num n) st)
take_value (quoted s) st = some (put (str s) st)
take_value (mark left_bracket) st = some (state (in_array nil ∷ st) value_or_close)
take_value (mark left_brace) st = some (state (in_object end "" ∷ st) key_or_close)
take_value (mark m) st = none

abbrev pub close : Mark → List Frame → Option State
close right_bracket (in_array vs ∷ st) = some (put (arr_of vs nil) st)
close right_brace (in_object fs k ∷ st) = some (put (obj fs) st)
close m st = none

abbrev pub take_key : Token → List Frame → Option State
take_key (quoted k) (in_object fs _ ∷ st) = some (state (in_object fs k ∷ st) colon_next)
take_key t st = none

abbrev pub take_after : Token → List Frame → Option State
take_after (mark comma) (in_array vs ∷ st) = some (state (in_array vs ∷ st) value)
take_after (mark comma) (in_object fs k ∷ st) = some (state (in_object fs k ∷ st) key)
take_after (mark m) st = close m st
take_after t st = none

abbrev pub take_first : Token → List Frame → Option State
take_first (mark right_bracket) st = close right_bracket st
take_first t st = take_value t st

abbrev pub take_first_key : Token → List Frame → Option State
take_first_key (mark m) st = close m st
take_first_key t st = take_key t st

abbrev pub take_colon : Token → List Frame → Option State
take_colon (mark colon) st = some (state st value)
take_colon t st = none

unfoldable pub consume : Token → Expected → List Frame → Option State
unfolding set_field
consume t value st = take_value t st
consume t value_or_close st = take_first t st
consume t key_or_close st = take_first_key t st
consume t key st = take_key t st
consume t colon_next st = take_colon t st
consume t after_value st = take_after t st
consume t (whole v) st = none

abbrev pub result : Expected → Option Json
result (whole v) = some v
result _ = none

unfoldable pub parse_tokens : List Token → List Frame → Expected → Option Json
unfolding consume
parse_tokens [] st e = result e
parse_tokens (t ∷ ts) st e = do next ← consume t e st; parse_tokens ts next.frames next.expected

-- `JSON.parse(s)`
unfoldable pub json_parse : (String → Number) → String → Option Json
unfolding lex parse_tokens
json_parse other s = do tokens ← lex other between s; parse_tokens tokens [] value
