-- ===== src/Json/Parser/RoundTrip.antt =====
-- The parts of a printed value are put together again.
use mathlib.Core.List.{append_assoc, append-nil}
use beckn_data_commons.Base.{
  String, Bool, true, false, Option, some, List, [], ◌∷◌, ◌++◌, ◌≡◌, refl, ◌∙◌, ap,
}
use beckn_data_commons.Js.{Number, nat, fraction, negative, non_finite}
use beckn_data_commons.Json.{
  Json, undefined, null, bool, num, str, arr, obj, Items, nil, cons, Fields, end, field, set_field,
  wire_number,
}
use beckn_data_commons.Json.Print.{Token, emit, emit_items, emit_fields, json_stringify}
use beckn_data_commons.Json.Lexer.RoundTrip.{NumbersRead, lex-json_stringify}
use beckn_data_commons.Json.Parser.{
  Frame, in_array, in_object, Expected, value, value_or_close, key_or_close, after_value, State,
  put, arr_of, consume, parse_tokens, json_parse,
}

-- what is read of a value that was printed
unfoldable mutual
  unfolding set_field

  pub read_back : Json → Json
  read_back undefined = null
  read_back null = null
  read_back (bool b) = bool b
  read_back (num n) = wire_number n
  read_back (str s) = str s
  read_back (arr vs) = arr (read_back_items vs)
  read_back (obj fs) = obj (read_back_fields end fs)

  pub read_back_items : Items → Items
  read_back_items nil = nil
  read_back_items (cons v vs) = cons (read_back v) (read_back_items vs)

  pub read_back_fields : Fields → Fields → Fields
  read_back_fields seen end = seen
  read_back_fields seen (field k undefined fs) = read_back_fields seen fs
  read_back_fields seen (field k v fs) = read_back_fields (set_field k (read_back v) seen) fs

abbrev go_on : List Token → State → Option Json
go_on ts s = parse_tokens ts s.frames s.expected

abbrev expected_item : Bool → Expected
expected_item true = value_or_close
expected_item false = after_value

abbrev expected_key : Bool → Expected
expected_key true = key_or_close
expected_key false = after_value

-- no value begins with the bracket that closes an array
first_value :
    (v : Json) (ts : List Token) (st : List Frame)
    → parse_tokens (emit v ++ ts) st value_or_close ≡ parse_tokens (emit v ++ ts) st value
unfolding parse_tokens consume emit
first_value undefined ts st = refl
first_value null ts st = refl
first_value (bool true) ts st = refl
first_value (bool false) ts st = refl
first_value (num (nat n)) ts st = refl
first_value (num (fraction n b s)) ts st = refl
first_value (num (negative n b s)) ts st = refl
first_value (num (non_finite s)) ts st = refl
first_value (str s) ts st = refl
first_value (arr vs) ts st = refl
first_value (obj fs) ts st = refl

regroup :
    (xs ys zs : List Token) (st : List Frame) (e : Expected)
    → parse_tokens ((xs ++ ys) ++ zs) st e ≡ parse_tokens (xs ++ (ys ++ zs)) st e
regroup xs ys zs st e = ap (λ us. parse_tokens us st e) (append_assoc xs ys zs)

mutual
  unfolding parse_tokens consume emit read_back

  parse_value :
      (v : Json) (ts : List Token) (st : List Frame)
      → parse_tokens (emit v ++ ts) st value ≡ go_on ts (put (read_back v) st)
  parse_value undefined ts st = refl
  parse_value null ts st = refl
  parse_value (bool true) ts st = refl
  parse_value (bool false) ts st = refl
  parse_value (num (nat n)) ts st = refl
  parse_value (num (fraction n b s)) ts st = refl
  parse_value (num (negative n b s)) ts st = refl
  parse_value (num (non_finite s)) ts st = refl
  parse_value (str s) ts st = refl
  parse_value (arr vs) ts st = parse_items vs nil true ts st
  parse_value (obj fs) ts st = parse_fields fs end "" true ts st

  parse_items :
      (vs seen : Items) (first : Bool) (ts : List Token) (st : List Frame)
      → parse_tokens (emit_items vs first ++ ts) (in_array seen ∷ st) (expected_item first)
        ≡ go_on ts (put (arr_of seen (read_back_items vs)) st)
  parse_items nil seen true ts st = refl
  parse_items nil seen false ts st = refl
  parse_items (cons v vs) seen true ts st =
      let more = emit_items vs false ++ ts in
      regroup (emit v) (emit_items vs false) ts (in_array seen ∷ st) value_or_close
      ∙ first_value v more (in_array seen ∷ st)
      ∙ parse_value v more (in_array seen ∷ st)
      ∙ parse_items vs (cons (read_back v) seen) false ts st
  parse_items (cons v vs) seen false ts st =
      regroup (emit v) (emit_items vs false) ts (in_array seen ∷ st) value
      ∙ parse_value v (emit_items vs false ++ ts) (in_array seen ∷ st)
      ∙ parse_items vs (cons (read_back v) seen) false ts st

  parse_fields :
      (fs seen : Fields) (last : String) (first : Bool) (ts : List Token) (st : List Frame)
      → parse_tokens (emit_fields fs first ++ ts) (in_object seen last ∷ st) (expected_key first)
        ≡ go_on ts (put (obj (read_back_fields seen fs)) st)
  parse_fields end seen last true ts st = refl
  parse_fields end seen last false ts st = refl
  parse_fields (field k undefined fs) seen last first ts st = parse_fields fs seen last first ts st
  parse_fields (field k v fs) seen last true ts st =
      regroup (emit v) (emit_fields fs false) ts (in_object seen k ∷ st) value
      ∙ parse_value v (emit_fields fs false ++ ts) (in_object seen k ∷ st)
      ∙ parse_fields fs (set_field k (read_back v) seen) "" false ts st
  parse_fields (field k v fs) seen last false ts st =
      regroup (emit v) (emit_fields fs false) ts (in_object seen k ∷ st) value
      ∙ parse_value v (emit_fields fs false ++ ts) (in_object seen k ∷ st)
      ∙ parse_fields fs (set_field k (read_back v) seen) "" false ts st

-- The tokens of a value parse to it.
pub parse_tokens-emit : (v : Json) → parse_tokens (emit v) [] value ≡ some (read_back v)
unfolding parse_tokens
parse_tokens-emit v = rw (← append-nil (emit v)) (parse_value v [] [])

-- The text of a value is read back, each object's properties under the names that it was written
-- with, when its numbers are read from their printed forms.
pub json_parse-json_stringify :
    (other : String → Number) (v : Json)
    → NumbersRead other v
    → json_parse other (json_stringify v) ≡ some (read_back v)
unfolding json_parse
json_parse-json_stringify other v h = rw (lex-json_stringify other v h) (parse_tokens-emit v)
