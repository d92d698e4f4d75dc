-- ===== src/Bpp/Intent.antt =====
-- services/bpp/src/beckn/builders.ts: what a provider reads of the message of a request.
pub mod Discarded
use beckn_data_commons.Base.{
  String, Option, none, some, List, [], ◌∷◌, ◌>>=◌, or_else, contains, such_that,
}
use beckn_data_commons.Json.{Json, undefined, str, obj, end, get, nullish, element_0}
use beckn_data_commons.Zod.{string, positive, optional}
use beckn_data_commons.Bpp.Catalog.{Offer, Catalog, SearchIntent, no_intent, get_offer}

-- an absent property of the candidate, and a text of an enumeration
abbrev text_among : List String → Json → Option String
text_among allowed v = such_that (λ t. contains t allowed) (string v)

abbrev pub kinds : List String
kinds = "dataset" ∷ "model" ∷ []

abbrev modalities : List String
modalities =
    "tabular" ∷ "text" ∷ "image" ∷ "audio" ∷ "timeseries" ∷ "geospatial" ∷ "multimodal" ∷ []

abbrev task_types : List String
task_types =
    "classification" ∷ "regression" ∷ "forecasting" ∷ "clustering" ∷ "generation" ∷ "detection"
    ∷ "segmentation" ∷ "recommendation" ∷ "other" ∷ []

abbrev license_classes : List String
license_classes = "permissive" ∷ "research-only" ∷ "no-redistribution" ∷ []

-- `SearchIntent.safeParse` of the candidate, whose keys are those of the schema
unfoldable pub parse_candidate : Json → Json → Option SearchIntent
parse_candidate intent query = do
  kind ← optional (text_among kinds) (get "kind" intent)
  modality ← optional (text_among modalities) (get "modality" intent)
  task_type ← optional (text_among task_types) (get "taskType" intent)
  license_class ← optional (text_among license_classes) (get "licenseClass" intent)
  query_text ← optional string query
  min_rows ← optional positive (get "minRows" intent)
  purpose ← optional string (get "purpose" intent)
  some (record {
    kind = kind;
    modality = modality;
    task_type = task_type;
    license_class = license_class;
    query = query_text;
    min_rows = min_rows;
  })

unfoldable pub extract_intent : Json → SearchIntent
extract_intent message =
    let intent = nullish (get "intent" (nullish message (obj end))) (obj end) in
    let descriptor_name = nullish (get "name" (get "descriptor" intent)) undefined in
    or_else (parse_candidate intent (nullish (get "query" intent) descriptor_name)) no_intent

abbrev first_offer_id : Json → Json
first_offer_id v = get "id" (element_0 (get "offers" v))

unfoldable pub extract_offer_id : Json → Json
extract_offer_id message =
    let m = nullish message (obj end) in
    nullish (first_offer_id (get "contract" m))
      (nullish (first_offer_id (get "order" m)) (get "offerId" m))

-- `catalog.getOffer(offerId)` of what a message names
unfoldable pub offer_of : Json → Catalog → Option Offer
offer_of (str offer_id) c = get_offer offer_id c
offer_of _ c = none
