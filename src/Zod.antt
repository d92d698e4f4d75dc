-- ===== src/Zod.antt =====
-- How the schemas of packages/beckn-schemas read a value. The tests of the library zod on the format
-- of a text, and its error messages, are the parameter `Zod`; a failed parse is `none`.
use beckn_data_commons.Base.{
  ℕ, String, Bool, true, false, ◌&&◌, Option, none, some, List, [], ◌∷◌, ◌≡◌, refl, ltb, ◌==◌,
  contains, not, ◌>>=◌, guard, such_that,
}
use beckn_data_commons.Js.{nat}
use beckn_data_commons.Json.{
  Json, undefined, bool, num, str, arr, obj, Items, nil, cons, Fields, field, keys,
}

pub record Zod : Type 0 where
  pub uuid : String → Bool
  pub url : String → Bool
  pub datetime : String → Bool
  -- the message of the error that a schema, named here, reports of a value
  pub message : String → Json → String

-- `z.string()`
abbrev pub string : Json → Option String
string (str s) = some s
string _ = none

abbrev pub not_empty : String → Bool
not_empty s = not (s == "")

-- `z.string().min(1)`
abbrev pub string_min_1 : Json → Option String
string_min_1 v = such_that not_empty (string v)

-- `z.boolean()`
abbrev pub boolean : Json → Option Bool
boolean (bool b) = some b
boolean _ = none

-- `z.number().int().nonnegative()`
abbrev pub natural : Json → Option ℕ
natural (num (nat n)) = some n
natural _ = none

-- `z.number().int().positive()`
abbrev pub positive : Json → Option ℕ
positive v = such_that (ltb 0) (natural v)

-- `.optional()`
abbrev pub optional {ℓ} : {A : Type ℓ} → (Json → Option A) → Json → Option (Option A)
optional p undefined = some none
optional p v = do a ← p v; some (some a)

-- `z.array(z.string())`
unfoldable pub strings_of : Items → Option (List String)
strings_of nil = some []
strings_of (cons v vs) = do s ← string v; ss ← strings_of vs; some (s ∷ ss)

abbrev pub strings : Json → Option (List String)
strings (arr vs) = strings_of vs
strings _ = none

-- `.min(1)` of an array
abbrev pub not_nil {ℓ} : {A : Type ℓ} → List A → Bool
not_nil [] = false
not_nil (x ∷ xs) = true

unfoldable pub all_among : List String → List String → Bool
all_among allowed [] = true
all_among allowed (k ∷ ks) = contains k allowed && all_among allowed ks

-- `z.object({…}).strict()`: the value is an object with no other keys
unfoldable pub strict : List String → Json → Option (Unit {0})
unfolding all_among
strict allowed (obj fs) = guard (all_among allowed (keys fs))
strict allowed _ = none

-- `z.object({…})`, whatever other keys there are
abbrev pub object : Json → Option (Unit {0})
object (obj fs) = some tt
object _ = none

-- an optional property of an object under construction
abbrev pub field_if {ℓ} : {A : Type ℓ} → String → (A → Json) → Option A → Fields → Fields
field_if k f none fs = fs
field_if k f (some a) fs = field k (f a) fs

abbrev pub string_items : List String → Items
string_items [] = nil
string_items (s ∷ ss) = cons (str s) (string_items ss)

pub strings_of-string_items : (ss : List String) → strings_of (string_items ss) ≡ some ss
unfolding strings_of
strings_of-string_items [] = refl
strings_of-string_items (s ∷ ss) = rw (strings_of-string_items ss)
