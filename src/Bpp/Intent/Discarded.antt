-- ===== src/Bpp/Intent/Discarded.antt =====
-- What becomes of a search intent with a word that the schema does not have.
use beckn_data_commons.Base.{String, false, none, ◌≡◌, refl, contains}
use beckn_data_commons.Json.{Json, str, obj, Fields, get}
use beckn_data_commons.Bpp.Catalog.{Catalog, search}
use beckn_data_commons.Bpp.Catalog.Search.{search-no_intent}
use beckn_data_commons.Bpp.Intent.{kinds, parse_candidate, extract_intent}

parse_candidate-unknown_kind :
    (intent query : Json) (kind : String)
    → get "kind" intent ≡ str kind
    → contains kind kinds ≡ false
    → parse_candidate intent query ≡ none
unfolding parse_candidate
parse_candidate-unknown_kind intent query kind given unknown = rw given (rw unknown refl)

-- When the kind that an intent asks for is not one of the schema's, the search that follows keeps every
-- offer of the catalog, whatever else the intent asks for.
pub extract_intent-unknown_kind :
    (to_lower_case : String → String) (message intent : Fields) (kind : String) (c : Catalog)
    → get "intent" (obj message) ≡ obj intent
    → get "kind" (obj intent) ≡ str kind
    → contains kind kinds ≡ false
    → (search to_lower_case (extract_intent (obj message)) c).offers ≡ c.offers
unfolding extract_intent
extract_intent-unknown_kind to_lower_case message intent kind c asked given unknown = rw asked (
    rw (parse_candidate-unknown_kind (obj intent) _ kind given unknown)
      (search-no_intent to_lower_case c))
