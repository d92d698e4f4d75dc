-- ===== src/Js/Text.antt =====
-- Texts: the order of `<` by UTF-16 units, tests on every character, UTF-8 and joining.
pub mod Order
use Prim.Native.Char.{Char, code}
use Prim.Native.String
use Prim.Native.String.{String, [], ◌∷◌}
use mathlib.Core.List
use beckn_data_commons.Base.{
  ℕ, ◌+◌, ◌-◌, ◌/◌, ◌%◌, Bool, true, false, not, ◌&&◌, ◌||◌, List, ltb, leb, eqb, if◌then◌else◌,
}

-- the UTF-16 units of a character
abbrev pub char_units : ℕ → List ℕ → List ℕ
char_units c rest =
    if ltb c 65536
    then List.◌∷◌ c rest
    else List.◌∷◌ (55296 + (c - 65536) / 1024) (List.◌∷◌ (56320 + (c - 65536) % 1024) rest)

unfoldable pub units : String → List ℕ
units [] = List.[]
units (c ∷ s) = char_units (code c) (units s)

-- the lexicographic order
unfoldable pub lex_lt : List ℕ → List ℕ → Bool
lex_lt List.[] List.[] = false
lex_lt List.[] (List.◌∷◌ y ys) = true
lex_lt (List.◌∷◌ x xs) List.[] = false
lex_lt (List.◌∷◌ x xs) (List.◌∷◌ y ys) = ltb x y || (eqb x y && lex_lt xs ys)

-- `a < b` between texts
unfoldable pub text_lt : String → String → Bool
unfolding units lex_lt
text_lt a b = lex_lt (units a) (units b)

-- every character passes a test
unfoldable pub all_chars : (ℕ → Bool) → String → Bool
all_chars p [] = true
all_chars p (c ∷ s) = p (code c) && all_chars p s

unfoldable pub utf8_char : ℕ → List ℕ → List ℕ
utf8_char c rest =
    if ltb c 128
    then List.◌∷◌ c rest
    else if ltb c 2048
    then List.◌∷◌ (192 + c / 64) (List.◌∷◌ (128 + c % 64) rest)
    else if ltb c 65536
    then List.◌∷◌ (224 + c / 4096) (List.◌∷◌ (128 + c / 64 % 64) (List.◌∷◌ (128 + c % 64) rest))
    else List.◌∷◌ (240 + c / 262144) (
        List.◌∷◌ (128 + c / 4096 % 64)
          (List.◌∷◌ (128 + c / 64 % 64) (List.◌∷◌ (128 + c % 64) rest)))

-- `new TextEncoder().encode(s)`
unfoldable pub utf8 : String → List ℕ
unfolding utf8_char
utf8 [] = List.[]
utf8 (c ∷ s) = utf8_char (code c) (utf8 s)

-- texts one after the other, as templates write them
infixr 65 ◌<>◌
abbrev pub ◌<>◌ : String → String → String
a <> b = String.◌++◌ a b

-- `parts.join(sep)`
unfoldable pub join : String → List String → String
join sep List.[] = ""
join sep (List.◌∷◌ s List.[]) = s
join sep (List.◌∷◌ s (List.◌∷◌ t ts)) = String.◌++◌ s (String.◌++◌ sep (join sep (List.◌∷◌ t ts)))

split_from : ℕ → String → String → List String
split_from sep acc [] = List.◌∷◌ acc List.[]
split_from sep acc (c ∷ s) =
    let rest = split_from sep "" s in
    let more = split_from sep (String.◌++◌ acc (c ∷ [])) s in
    if eqb (code c) sep then List.◌∷◌ acc rest else more

-- `s.split(sep)` for one character
unfoldable pub split : ℕ → String → List String
unfolding split_from
split sep s = split_from sep "" s
