-- ===== src/Json/Texts.antt =====
-- Values as texts, and tests on texts.
use Prim.Native.Char.{code}
use Prim.Native.String
use text.Mathlib.TextLemmas.{nil-append, cons-append}
use beckn_data_commons.Base.{
  ℕ, String, Bool, true, false, ◌||◌, eqb, Option, none, some, List, [], ◌∷◌, or_else, is_some,
  if◌then◌else◌, ◌≡◌, refl, arith,
}
use beckn_data_commons.Js.{number_text}
use beckn_data_commons.Js.Text.{join, ◌<>◌}
use beckn_data_commons.Json.{Json, undefined, null, bool, num, str, arr, obj, Items, nil, cons}

-- `String(v)`, where an absent element of an array is empty
unfoldable mutual
  unfolding number_text

  pub string_of : Json → String
  string_of undefined = "undefined"
  string_of null = "null"
  string_of (bool true) = "true"
  string_of (bool false) = "false"
  string_of (num n) = number_text n
  string_of (str s) = s
  string_of (arr vs) = join "," (strings_of_items vs)
  string_of (obj fs) = "[object Object]"

  pub strings_of_items : Items → List String
  strings_of_items nil = []
  strings_of_items (cons undefined vs) = "" ∷ strings_of_items vs
  strings_of_items (cons null vs) = "" ∷ strings_of_items vs
  strings_of_items (cons v vs) = string_of v ∷ strings_of_items vs

unfoldable pub without_prefix : String → String → Option String
without_prefix String.[] s = some s
without_prefix (String.◌∷◌ p ps) String.[] = none
without_prefix (String.◌∷◌ p ps) (String.◌∷◌ c s) =
    let rest = without_prefix ps s in if eqb (code p) (code c) then rest else none

pub without_prefix-append : (p t : String) → without_prefix p (p <> t) ≡ some t
unfolding without_prefix
without_prefix-append String.[] t = rw nil-append refl
without_prefix-append (String.◌∷◌ c p) t =
    rw cons-append (ground (arith, without_prefix-append p t))

-- `.replace(/^on_/, '')`
unfoldable pub strip_on : String → String
unfolding without_prefix
strip_on s = or_else (without_prefix "on_" s) s

-- `hay.includes(needle)`
unfoldable pub includes : String → String → Bool
unfolding without_prefix
includes needle String.[] = is_some (without_prefix needle String.[])
includes needle (String.◌∷◌ c s) =
    is_some (without_prefix needle (String.◌∷◌ c s)) || includes needle s

last_part_from : ℕ → String → String → String
last_part_from sep acc String.[] = acc
last_part_from sep acc (String.◌∷◌ c s) =
    last_part_from sep (if eqb (code c) sep then "" else String.◌++◌ acc (String.◌∷◌ c String.[])) s

-- `s.split(sep).pop()` for one character
unfoldable pub last_part : ℕ → String → String
unfolding last_part_from
last_part sep s = last_part_from sep "" s
