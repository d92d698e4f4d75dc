-- ===== src/Web/Held/Kept.antt =====
-- What a browser holds after it has obtained grants: the text in its storage is read as the list that
-- was written.
use mathlib.Core.Path.{subst}
use beckn_data_commons.Base.{
  ℕ, zero, suc, String, Bool, Option, none, some, List, [], ◌∷◌, take, select, ◌≡◌, refl, sym, ◌∙◌,
  ap, All, Bool-cases, inl, inr, true, length, arith, ◌≤◌,
}
use beckn_data_commons.Js.{Number}
use beckn_data_commons.Json.{Json, arr, items, from_items}
use beckn_data_commons.Json.Print.{json_stringify}
use beckn_data_commons.Json.Lexer.{lex, at_end}
use beckn_data_commons.Json.Lexer.RoundTrip.{NumbersRead, ItemsRead}
use beckn_data_commons.Json.Parser.{json_parse, parse_tokens}
use beckn_data_commons.Json.Parser.RoundTrip.{read_back, read_back_items, json_parse-json_stringify}
use beckn_data_commons.Grant.Types.{signed_json}
use beckn_data_commons.Grant.Types.ReadBack.{read_back-signed_json, NumbersRead-signed_json}
use beckn_data_commons.Web.Held.{HeldGrant, held_json, differs, list_held_grants, add_held_grant}

-- the abstract list: the newest first, one for an id, and at most fifty
unfoldable pub keep : Json → List Json → List Json
keep held vs = take 50 (held ∷ select (differs held) vs)

unfoldable pub keep_all : List HeldGrant → List Json → List Json
unfolding keep
keep_all [] vs = vs
keep_all (h ∷ hs) vs = keep_all hs (keep (held_json h) vs)

-- No two grants of a list have one id.
abbrev OneEach : List Json → Type 0
OneEach [] = Unit
OneEach (v ∷ vs) = All (λ w. differs v w ≡ true) vs × OneEach vs

module _ (P : Json → Type 0) where
  All-select : (p : Json → Bool) (vs : List Json) → All P vs → All P (select p vs)
  All-select p [] h = tt
  All-select p (v ∷ vs) (hv, h) = elim (Bool-cases (p v)) [
    | inl kept ↦ rw kept (hv, All-select p vs h)
    | inr dropped ↦ rw dropped (All-select p vs h)
  ]

  All-take : (n : ℕ) (vs : List Json) → All P vs → All P (take n vs)
  All-take zero vs h = tt
  All-take (suc n) [] h = tt
  All-take (suc n) (v ∷ vs) (hv, h) = (hv, All-take n vs h)

selected : (p : Json → Bool) (vs : List Json) → All (λ w. p w ≡ true) (select p vs)
selected p [] = tt
selected p (v ∷ vs) = elim (Bool-cases (p v)) [
  | inl kept ↦ rw kept (kept, selected p vs)
  | inr dropped ↦ rw dropped (selected p vs)
]

OneEach-select : (p : Json → Bool) (vs : List Json) → OneEach vs → OneEach (select p vs)
OneEach-select p [] h = tt
OneEach-select p (v ∷ vs) (hv, h) = elim (Bool-cases (p v)) [
  | inl kept ↦ rw kept (All-select (λ w. differs v w ≡ true) p vs hv, OneEach-select p vs h)
  | inr dropped ↦ rw dropped (OneEach-select p vs h)
]

OneEach-take : (n : ℕ) (vs : List Json) → OneEach vs → OneEach (take n vs)
OneEach-take zero vs h = tt
OneEach-take (suc n) [] h = tt
OneEach-take (suc n) (v ∷ vs) (hv, h) =
    (All-take (λ w. differs v w ≡ true) n vs hv, OneEach-take n vs h)

length-take : (n : ℕ) (vs : List Json) → length (take n vs) ≤ n
length-take zero vs = omega arith
length-take (suc n) [] = omega arith
length-take (suc n) (v ∷ vs) = omega (arith, length-take n vs)

-- what the abstract list keeps to
abbrev pub IsKept : List Json → Type 0
IsKept vs = OneEach vs × (length vs ≤ 50)

IsKept-keep : (held : Json) (vs : List Json) → IsKept vs → IsKept (keep held vs)
unfolding keep
IsKept-keep held vs (distinct, _) =
    let listed : OneEach (held ∷ select (differs held) vs) =
      (selected (differs held) vs, OneEach-select (differs held) vs distinct) in
    (
      OneEach-take 50 (held ∷ select (differs held) vs) listed,
      length-take 50 (held ∷ select (differs held) vs),
    )

IsKept-keep_all : (hs : List HeldGrant) (vs : List Json) → IsKept vs → IsKept (keep_all hs vs)
unfolding keep_all
IsKept-keep_all [] vs h = h
IsKept-keep_all (h ∷ hs) vs k =
    IsKept-keep_all hs (keep (held_json h) vs) (IsKept-keep (held_json h) vs k)

module _ (other : String → Number) where
  unfoldable pub add_all : List HeldGrant → Option String → Option String
  unfolding add_held_grant
  add_all [] storage = storage
  add_all (h ∷ hs) storage = add_all hs (add_held_grant other (held_json h) storage)

  -- What a storage gives back as it was.
  abbrev Storable : Json → Type 0
  Storable v = NumbersRead other v × (read_back v ≡ v)

  Storable-held_json : (h : HeldGrant) → Storable (held_json h)
  unfolding NumbersRead read_back signed_json
  Storable-held_json h = (
    (NumbersRead-signed_json other h.grant, (tt, (tt, (tt, tt)))),
    rw (read_back-signed_json h.grant) refl,
  )

  ItemsRead-from_items : (vs : List Json) → All Storable vs → ItemsRead other (from_items vs)
  unfolding NumbersRead
  ItemsRead-from_items [] h = tt
  ItemsRead-from_items (v ∷ vs) ((hv, _), h) = (hv, ItemsRead-from_items vs h)

  read_back-from_items :
      (vs : List Json) → All Storable vs → read_back_items (from_items vs) ≡ from_items vs
  unfolding read_back
  read_back-from_items [] h = refl
  read_back-from_items (v ∷ vs) ((_, e), h) = rw (e, read_back-from_items vs h) refl

  items-from_items : (vs : List Json) → items (from_items vs) ≡ vs
  items-from_items [] = refl
  items-from_items (v ∷ vs) = ap (λ ws. v ∷ ws) (items-from_items vs)

  list_held_grants-json_stringify :
      (vs : List Json)
      → All Storable vs
      → list_held_grants other (some (json_stringify (arr (from_items vs)))) ≡ vs
  unfolding list_held_grants NumbersRead read_back
  list_held_grants-json_stringify vs h =
      rw (json_parse-json_stringify other (arr (from_items vs)) (ItemsRead-from_items vs h))
        (rw (read_back-from_items vs h) (items-from_items vs))

  Storable-keep :
      (h : HeldGrant) (vs : List Json) → All Storable vs → All Storable (keep (held_json h) vs)
  unfolding keep
  Storable-keep h vs hs =
      All-take Storable 50 (held_json h ∷ select (differs (held_json h)) vs)
        (Storable-held_json h, All-select Storable (differs (held_json h)) vs hs)

  list_held_grants-add_held_grant :
      (h : HeldGrant) (storage : Option String)
      → All Storable (list_held_grants other storage)
      → list_held_grants other (add_held_grant other (held_json h) storage)
        ≡ keep (held_json h) (list_held_grants other storage)
  unfolding add_held_grant keep
  list_held_grants-add_held_grant h storage hs =
      list_held_grants-json_stringify _ (Storable-keep h (list_held_grants other storage) hs)

  list_held_grants-from :
      (hs : List HeldGrant) (storage : Option String)
      → All Storable (list_held_grants other storage)
      → list_held_grants other (add_all hs storage) ≡ keep_all hs (list_held_grants other storage)
  unfolding add_all keep_all
  list_held_grants-from [] storage ok = refl
  list_held_grants-from (h ∷ hs) storage ok =
      let e = list_held_grants-add_held_grant h storage ok in
      list_held_grants-from hs (add_held_grant other (held_json h) storage)
        (subst (All Storable) (sym e) (Storable-keep h (list_held_grants other storage) ok))
      ∙ ap (keep_all hs) e

  nothing_held : list_held_grants other none ≡ []
  unfolding list_held_grants json_parse lex at_end parse_tokens
  nothing_held = refl

  -- A browser that starts without a storage lists, after any series of grants that it has obtained, what
  -- the abstract list holds when each comes first and replaces the one with its id; the list has no id
  -- twice, and at most fifty grants.
  pub list_held_grants-add_all :
      (hs : List HeldGrant)
      → (list_held_grants other (add_all hs none) ≡ keep_all hs [])
        × IsKept (list_held_grants other (add_all hs none))
  list_held_grants-add_all hs =
      let listed =
        list_held_grants-from hs none (subst (All Storable) (sym nothing_held) tt)
        ∙ ap (keep_all hs) nothing_held in
      (listed, subst IsKept (sym listed) (IsKept-keep_all hs [] (tt, omega arith)))
