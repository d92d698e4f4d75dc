-- ===== src/Json/Lexer/RoundTrip.antt =====
-- A printed value is read as the tokens that it was printed from.
use package.text.Mathlib.TextLemmas.{nil-append, cons-append, append-nil}
use Prim.Native.Char.{Char}
use mathlib.Core.Path.{subst, sym}
use mathlib.Core.List.{append-nil as list_append-nil}
use beckn_data_commons.Base.{
  String, Bool, true, false, some, List, [], ◌∷◌, ◌++◌, ◌≡◌, refl, ◌∙◌, ap,
}
use beckn_data_commons.Js.{Number, nat, fraction, negative, non_finite}
use beckn_data_commons.Js.Text.{◌<>◌}
use beckn_data_commons.Json.{
  Json, undefined, null, bool, num, str, arr, obj, Items, nil, cons, Fields, end, field,
}
use beckn_data_commons.Json.Print.{
  Token, mark, quoted, null_word, true_word, false_word, left_bracket, right_bracket, left_brace,
  right_brace, comma, colon, texts, emit, emit_items, emit_fields, json_stringify,
}
use beckn_data_commons.Json.Lexer.{between, at_end, lex}
use beckn_data_commons.Json.Lexer.Printed.{
  Stops, Reads, Reads-nat, Lexes, LexesAny, Lexes-append, LexesAny-append, LexesAny-mark,
  LexesAny-quoted, Lexes-word, Lexes-number,
}

-- Every number that is no natural number is read from its printed form.
unfoldable mutual
  pub NumbersRead : (String → Number) → Json → Type 0
  NumbersRead other (num (nat n)) = Unit
  NumbersRead other (num (fraction n b s)) = Reads other (fraction n b s)
  NumbersRead other (num (negative n b s)) = Reads other (negative n b s)
  NumbersRead other (num (non_finite s)) = Unit
  NumbersRead other (arr vs) = ItemsRead other vs
  NumbersRead other (obj fs) = FieldsRead other fs
  NumbersRead other _ = Unit

  pub ItemsRead : (String → Number) → Items → Type 0
  ItemsRead other nil = Unit
  ItemsRead other (cons v vs) = NumbersRead other v × ItemsRead other vs

  pub FieldsRead : (String → Number) → Fields → Type 0
  FieldsRead other end = Unit
  FieldsRead other (field k v fs) = NumbersRead other v × FieldsRead other fs

one_then : (c : Char) (t rest : String) → (String.◌∷◌ c "" <> t) <> rest ≡ String.◌∷◌ c (t <> rest)
one_then c t rest = simp (cons-append, nil-append)

Stops-cons :
    (c : Char) (t rest : String) → Stops (String.◌∷◌ c "") → Stops ((String.◌∷◌ c "" <> t) <> rest)
Stops-cons c t rest h = subst Stops (sym (one_then c t rest)) h

-- After a value comes a comma or a bracket.
Stops-emit_items : (vs : Items) (rest : String) → Stops (texts (emit_items vs false) <> rest)
unfolding texts emit
Stops-emit_items nil rest = rw cons-append (refl, refl)
Stops-emit_items (cons v vs) rest = Stops-cons _ _ rest (refl, refl)

Stops-emit_fields : (fs : Fields) (rest : String) → Stops (texts (emit_fields fs false) <> rest)
unfolding texts emit
Stops-emit_fields end rest = rw cons-append (refl, refl)
Stops-emit_fields (field k undefined fs) rest = Stops-emit_fields fs rest
Stops-emit_fields (field k v fs) rest = Stops-cons _ _ rest (refl, refl)

module _ (other : String → Number) where
  LexesAny-key :
      (k : String) (ts : List Token)
      → LexesAny other ts
      → LexesAny other (quoted k ∷ mark colon ∷ ts)
  LexesAny-key k ts h =
      LexesAny-append other (quoted k ∷ []) (mark colon ∷ ts) (LexesAny-quoted other k)
        (LexesAny-append other (mark colon ∷ []) ts (LexesAny-mark other colon) h)

  mutual
    unfolding emit NumbersRead

    Lexes-emit : (v : Json) → NumbersRead other v → Lexes other (emit v)
    Lexes-emit undefined h = Lexes-word other null_word
    Lexes-emit null h = Lexes-word other null_word
    Lexes-emit (bool true) h = Lexes-word other true_word
    Lexes-emit (bool false) h = Lexes-word other false_word
    Lexes-emit (num (nat n)) h = Lexes-number other (nat n) (Reads-nat other n)
    Lexes-emit (num (fraction n b s)) h = Lexes-number other (fraction n b s) h
    Lexes-emit (num (negative n b s)) h = Lexes-number other (negative n b s) h
    Lexes-emit (num (non_finite s)) h = Lexes-word other null_word
    Lexes-emit (str s) h = λ rest _. LexesAny-quoted other s rest
    Lexes-emit (arr vs) h = λ rest _.
        LexesAny-append other (mark left_bracket ∷ []) (emit_items vs true)
          (LexesAny-mark other left_bracket) (LexesAny-emit_items vs true h) rest
    Lexes-emit (obj fs) h = λ rest _.
        LexesAny-append other (mark left_brace ∷ []) (emit_fields fs true)
          (LexesAny-mark other left_brace) (LexesAny-emit_fields fs true h) rest

    LexesAny-emit_items :
        (vs : Items) (first : Bool) → ItemsRead other vs → LexesAny other (emit_items vs first)
    LexesAny-emit_items nil first h = LexesAny-mark other right_bracket
    LexesAny-emit_items (cons v vs) true (hv, h) =
        Lexes-append other (emit v) (emit_items vs false) (Lexes-emit v hv) (Stops-emit_items vs)
          (LexesAny-emit_items vs false h)
    LexesAny-emit_items (cons v vs) false (hv, h) =
        LexesAny-append other (mark comma ∷ []) (emit v ++ emit_items vs false)
          (LexesAny-mark other comma)
          (Lexes-append other (emit v) (emit_items vs false) (Lexes-emit v hv) (Stops-emit_items vs)
            (LexesAny-emit_items vs false h))

    LexesAny-emit_fields :
        (fs : Fields) (first : Bool) → FieldsRead other fs → LexesAny other (emit_fields fs first)
    LexesAny-emit_fields end first h = LexesAny-mark other right_brace
    LexesAny-emit_fields (field k undefined fs) first (_, h) = LexesAny-emit_fields fs first h
    LexesAny-emit_fields (field k v fs) true (hv, h) =
        LexesAny-key k (emit v ++ emit_fields fs false) (
          Lexes-append other (emit v) (emit_fields fs false) (Lexes-emit v hv)
            (Stops-emit_fields fs) (LexesAny-emit_fields fs false h))
    LexesAny-emit_fields (field k v fs) false (hv, h) =
        LexesAny-append other (mark comma ∷ []) _ (LexesAny-mark other comma) (
          LexesAny-key k (emit v ++ emit_fields fs false) (
            Lexes-append other (emit v) (emit_fields fs false) (Lexes-emit v hv)
              (Stops-emit_fields fs) (LexesAny-emit_fields fs false h)))

  -- The text of a value is read as the tokens that it was printed from.
  pub lex-json_stringify :
      (v : Json) → NumbersRead other v → lex other between (json_stringify v) ≡ some (emit v)
  unfolding json_stringify lex at_end
  lex-json_stringify v h =
      ap (lex other between) (sym (append-nil (texts (emit v))))
      ∙ Lexes-emit v h "" tt
      ∙ ap some (list_append-nil (emit v))
