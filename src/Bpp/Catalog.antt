-- ===== src/Bpp/Catalog.antt =====
-- services/bpp/src/catalog.ts: search and file resolution. The catalog was read by its schema; of each
-- part the model has what the code reads and, in `other`, the rest of the properties.
pub mod Search
use beckn_data_commons.Base.{
  ℕ, String, Bool, true, false, not, ◌==◌, ◌&&◌, Option, none, some, List, [], ◌∷◌, ◌++◌, ltb,
  select, contains, find, or_else, if◌then◌else◌,
}
use Prim.Native.String
use beckn_data_commons.Js.{nat}
use beckn_data_commons.Js.Text.{join}
use beckn_data_commons.Js.Map.{map_get}
use beckn_data_commons.Json.{Json, num, str, Fields, get, nullish}
use beckn_data_commons.Json.Texts.{string_of, includes, last_part}
use beckn_data_commons.Grant.Types.{GrantScopeKind, sample}
use beckn_data_commons.Auth.Header.{present}
use beckn_data_commons.Bpp.Download.{ResolvedFile}

pub record Offer : Type 0 where
  pub id : String
  pub name : String
  pub resource_ids : List String
  pub offer_attributes : Json
  pub considerations : List Json
  pub other : Fields

pub record Resource : Type 0 where
  pub id : String
  pub other : Fields

pub record Catalog : Type 0 where
  pub bpp_id : Option String
  pub resources : List Resource
  pub offers : List Offer
  pub other : Fields

pub record SearchIntent : Type 0 where
  pub kind : Option String
  pub modality : Option String
  pub task_type : Option String
  pub license_class : Option String
  pub query : Option String
  pub min_rows : Option ℕ

abbrev pub no_intent : SearchIntent
no_intent = record {
  kind = none;
  modality = none;
  task_type = none;
  license_class = none;
  query = none;
  min_rows = none;
}

-- `catalog.offers.find((o) => o.id === offerId)`
unfoldable pub get_offer : String → Catalog → Option Offer
get_offer offer_id c = find (λ o. o.id == offer_id) c.offers

abbrev is_text : String → Json → Bool
is_text t (str s) = s == t
is_text t _ = false

-- the attribute `field` has the wanted text
abbrev pub has_attribute : Offer → String → Option String → Bool
has_attribute o key none = true
has_attribute o key (some want) = is_text want (get key o.offer_attributes)

-- the schema lets a natural number through, or nothing
abbrev pub row_count : Json → ℕ
row_count (num (nat n)) = n
row_count _ = 0

abbrev pub has_rows : Offer → Option ℕ → Bool
has_rows o none = true
has_rows o (some min_rows) =
    not (ltb (row_count (get "dataset:rowCountEstimate" o.offer_attributes)) min_rows)

abbrev pub hay_of : Offer → String
hay_of o = join " " (
    o.name
    ∷ string_of (nullish (get "schema:name" o.offer_attributes) (str ""))
    ∷ string_of (nullish (get "schema:description" o.offer_attributes) (str ""))
    ∷ [])

-- `new Set(offers.flatMap((o) => o.resourceIds))`
unfoldable pub resource_ids_of : List Offer → List String
resource_ids_of [] = []
resource_ids_of (o ∷ os) = o.resource_ids ++ resource_ids_of os

-- `to_lower_case` is the language's, for all of Unicode
module _ (to_lower_case : String → String) where
  abbrev pub has_query : Offer → Option String → Bool
  has_query o none = true
  has_query o (some q) = includes (to_lower_case q) (to_lower_case (hay_of o))

  unfoldable pub matches : SearchIntent → Offer → Bool
  matches intent o =
      has_attribute o "bdc:resourceKind" intent.kind
      && has_attribute o "bdc:modality" intent.modality
      && has_attribute o "bdc:taskType" intent.task_type
      && has_attribute o "bdc:licenseClass" intent.license_class
      && has_rows o intent.min_rows
      && has_query o (present intent.query)

  unfoldable pub search : SearchIntent → Catalog → Catalog
  search intent c =
      let offers = select (matches intent) c.offers in
      record c {
        offers = offers;
        resources = select (λ r. contains r.id (resource_ids_of offers)) c.resources;
      }

  unfoldable pub content_type_of : String → String
  content_type_of ext =
      if ext == "csv"
      then "text/csv"
      else if ext == "ndjson"
      then "application/x-ndjson"
      else if ext == "json"
      then "application/json"
      else "application/octet-stream"

  unfoldable pub content_type_for : String → String
  content_type_for path = content_type_of (to_lower_case (last_part b'.' path))

-- the files of an offer
pub record SeedFiles : Type 0 where
  pub full : String
  pub sample_file : Option String

abbrev pub relative_path : GrantScopeKind → SeedFiles → String
relative_path sample entry = or_else (present entry.sample_file) entry.full
relative_path _ entry = entry.full

-- `resolve` of node:path and `existsSync` of the file system are parameters, as is the map of files,
-- own properties only
unfoldable pub resolve_file :
    (String → String)
    → (String → String → String)
    → (String → Bool)
    → List (String × SeedFiles)
    → String
    → String
    → String
    → GrantScopeKind
    → Option ResolvedFile
resolve_file to_lower_case resolve exists_sync files data_dir resource_id offer_id kind =
    elim (map_get offer_id files) [
      | none ↦ none
      | some entry ↦
          let rel = relative_path kind entry in
          let path = resolve data_dir rel in
          if exists_sync path
          then some (record {
            path = path;
            filename = last_part b'/' rel;
            content_type = content_type_for to_lower_case rel;
          })
          else none
    ]
