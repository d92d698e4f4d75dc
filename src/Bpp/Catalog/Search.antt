-- ===== src/Bpp/Catalog/Search.antt =====
-- What a search keeps of the catalog.
use beckn_data_commons.Base.{
  String, Bool, true, ◌≡◌, refl, List, [], ◌∷◌, select, contains, Bool-cases, inl, inr,
}
use beckn_data_commons.Bpp.Catalog.{
  Resource, Catalog, SearchIntent, no_intent, matches, search, resource_ids_of,
}

module _ {ℓ} {A : Type ℓ} (p : A → Bool) where
  select-select : (xs : List A) → select p (select p xs) ≡ select p xs
  select-select [] = refl
  select-select (x ∷ xs) = elim (Bool-cases (p x)) [
    | inl kept ↦ rw (kept, kept) (rw (select-select xs) refl)
    | inr left ↦ rw left (select-select xs)
  ]

-- Searching the result of a search with the same intent changes nothing: the offers that matched match
-- again, and the resources that they cover are the ones that are left.
pub search-search :
    (to_lower_case : String → String) (intent : SearchIntent) (c : Catalog)
    → search to_lower_case intent (search to_lower_case intent c) ≡ search to_lower_case intent c
unfolding search
search-search to_lower_case intent c =
    rw
      (
        select-select (matches to_lower_case intent) c.offers,
        select-select
            (λ (r : Resource).
              contains r.id (resource_ids_of (select (matches to_lower_case intent) c.offers)))
            c.resources,
      )
      refl

select-all : {A : Type 0} (p : A → Bool) (xs : List A) → ((x : A) → p x ≡ true) → select p xs ≡ xs
select-all p [] h = refl
select-all p (x ∷ xs) h = rw (h x, select-all p xs h) refl

-- An intent without wishes keeps every offer.
pub search-no_intent :
    (to_lower_case : String → String) (c : Catalog)
    → (search to_lower_case no_intent c).offers ≡ c.offers
unfolding search matches
search-no_intent to_lower_case c = select-all _ c.offers (λ o. refl)
