-- ===== src/Js/Space.antt =====
-- White space in texts: `\s`, and `trim`.
use Prim.Native.Char.{code}
use beckn_data_commons.Base.{ℕ, String, Bool, ◌&&◌, ◌||◌, ◌==◌, leb, eqb, if◌then◌else◌}

abbrev pub is_space : ℕ → Bool
is_space c =
    leb 9 c && leb c 13
    || eqb c 32
    || eqb c 160
    || eqb c 5760
    || leb 8192 c && leb c 8202
    || eqb c 8232
    || eqb c 8233
    || eqb c 8239
    || eqb c 8287
    || eqb c 12288
    || eqb c 65279

unfoldable pub trim_start : String → String
trim_start String.[] = ""
trim_start (String.◌∷◌ c s) =
    let rest = trim_start s in if is_space (code c) then rest else String.◌∷◌ c s

-- a space is left out when only spaces follow
unfoldable pub trim_end : String → String
trim_end String.[] = ""
trim_end (String.◌∷◌ c s) =
    let rest = trim_end s in
    if is_space (code c) then (if rest == "" then "" else String.◌∷◌ c rest) else String.◌∷◌ c rest

abbrev pub trim : String → String
trim s = trim_end (trim_start s)
