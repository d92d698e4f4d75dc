-- ===== src/Auth/Registry.antt =====
-- packages/crypto-utils/src/beckn-auth.ts: `parseKeyRegistry`. A thrown error is `none`.
use Prim.Native.Char.{code}
use beckn_data_commons.Base.{
  String, not, ◌==◌, Option, none, some, List, [], ◌∷◌, ◌>>=◌, eqb, map, select, if◌then◌else◌,
}
use beckn_data_commons.Js.Map.{map_set}
use beckn_data_commons.Js.Space.{trim_start, trim_end, trim}
use beckn_data_commons.Js.Text.{split}

-- `[s.slice(0, idx), s.slice(idx + 1)]` at the first `=`, if there is one
unfoldable pub at_equals : String → Option (String × String)
at_equals String.[] = none
at_equals (String.◌∷◌ c s) =
    let later = at_equals s >>= λ entry. some (String.◌∷◌ c entry.0, entry.1) in
    if eqb (code c) b'=' then some ("", s) else later

-- an entry with no `=`, or with nothing before it, throws
unfoldable pub entry_of : String → Option (String × String)
unfolding at_equals trim_start trim_end
entry_of pair = do
  (key, value) ← at_equals pair
  if key == "" then none else some (trim key, trim value)

unfoldable pub set_entries : List String → List (String × String) → Option (List (String × String))
set_entries [] m = some m
set_entries (pair ∷ pairs) m = do
  (key, value) ← entry_of pair
  set_entries pairs (map_set key value m)

-- `spec.split(',').map((s) => s.trim()).filter(Boolean)`
abbrev pub listed : String → List String
listed spec = select (λ s. not (s == "")) (map trim (split b',' spec))

unfoldable pub parse_key_registry : String → Option (List (String × String))
unfolding set_entries split trim_start trim_end
parse_key_registry spec = set_entries (listed spec) []
