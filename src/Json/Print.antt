-- ===== src/Json/Print.antt =====
-- `JSON.stringify`, through the marks and words that its text is made of.
use beckn_data_commons.Base.{String, Bool, true, false, List, [], ◌∷◌, ◌++◌}
use beckn_data_commons.Js.{Number, non_finite, number_text}
use beckn_data_commons.Js.Text.{◌<>◌}
use beckn_data_commons.Json.{
  Json, undefined, null, bool, num, str, arr, obj, Items, nil, cons, Fields, end, field,
}
use beckn_data_commons.Json.Quote.{quote}

pub data Mark : Type 0 where
  left_bracket right_bracket left_brace right_brace comma colon : Mark

pub data Word : Type 0 where
  null_word true_word false_word : Word

pub data Token : Type 0 where
  mark : Mark → Token
  word : Word → Token
  number : Number → Token
  quoted : String → Token

abbrev pub mark_text : Mark → String
mark_text left_bracket = "["
mark_text right_bracket = "]"
mark_text left_brace = "{"
mark_text right_brace = "}"
mark_text comma = ","
mark_text colon = ":"

abbrev pub word_text : Word → String
word_text null_word = "null"
word_text true_word = "true"
word_text false_word = "false"

abbrev pub token_text : Token → String
token_text (mark m) = mark_text m
token_text (word w) = word_text w
token_text (number n) = number_text n
token_text (quoted s) = quote s

unfoldable pub texts : List Token → String
unfolding quote number_text
texts [] = ""
texts (t ∷ ts) = token_text t <> texts ts

abbrev pub sep : Bool → List Token
sep true = []
sep false = mark comma ∷ []

abbrev pub emit_bool : Bool → Token
emit_bool true = word true_word
emit_bool false = word false_word

abbrev pub emit_number : Number → Token
emit_number (non_finite s) = word null_word
emit_number n = number n

-- the second argument of the parts: whether they are the first of theirs
unfoldable mutual
  pub emit : Json → List Token
  emit undefined = word null_word ∷ []
  emit null = word null_word ∷ []
  emit (bool b) = emit_bool b ∷ []
  emit (num n) = emit_number n ∷ []
  emit (str s) = quoted s ∷ []
  emit (arr vs) = mark left_bracket ∷ emit_items vs true
  emit (obj fs) = mark left_brace ∷ emit_fields fs true

  pub emit_items : Items → Bool → List Token
  emit_items nil first = mark right_bracket ∷ []
  emit_items (cons v vs) first = sep first ++ (emit v ++ emit_items vs false)

  pub emit_fields : Fields → Bool → List Token
  emit_fields end first = mark right_brace ∷ []
  emit_fields (field k undefined fs) first = emit_fields fs first
  emit_fields (field k v fs) first =
      sep first ++ (quoted k ∷ mark colon ∷ (emit v ++ emit_fields fs false))

-- `JSON.stringify(v)` of a value that is not `undefined`
unfoldable pub json_stringify : Json → String
unfolding emit texts
json_stringify v = texts (emit v)
