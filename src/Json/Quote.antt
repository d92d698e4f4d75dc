-- ===== src/Json/Quote.antt =====
-- `JSON.stringify` of a text, as canonical.ts and the standard library write it.
use Prim.Native.Char.{Char, code}
use Prim.Native.String
use Prim.Native.String.{char_at}
use beckn_data_commons.Base.{ℕ, ◌/◌, ◌%◌, String, ltb, eqb, if◌then◌else◌}

unfoldable pub hex_digit : ℕ → Char
hex_digit d = char_at "0123456789abcdef" d

abbrev pub then_char : Char → String → String
then_char c s = String.◌∷◌ c s

-- one character of a quoted text
unfoldable pub escape_char : Char → String → String
unfolding hex_digit
escape_char c rest =
    if eqb (code c) 34
    then String.◌++◌ "\\\"" rest
    else if eqb (code c) 92
    then String.◌++◌ "\\\\" rest
    else if eqb (code c) 8
    then String.◌++◌ "\\b" rest
    else if eqb (code c) 9
    then String.◌++◌ "\\t" rest
    else if eqb (code c) 10
    then String.◌++◌ "\\n" rest
    else if eqb (code c) 12
    then String.◌++◌ "\\f" rest
    else if eqb (code c) 13
    then String.◌++◌ "\\r" rest
    else if ltb (code c) 32
    then String.◌++◌ "\\u00"
        (then_char (hex_digit (code c / 16)) (then_char (hex_digit (code c % 16)) rest))
    else then_char c rest

unfoldable pub escape : String → String
unfolding escape_char
escape String.[] = "\""
escape (String.◌∷◌ c s) = escape_char c (escape s)

-- `JSON.stringify` of a text
unfoldable pub quote : String → String
unfolding escape
quote s = String.◌++◌ "\"" (escape s)
