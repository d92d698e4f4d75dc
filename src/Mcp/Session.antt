-- ===== src/Mcp/Session.antt =====
-- services/mcp-server/src/session.ts: the offers of the searches and the grants that were obtained.
-- Catalogs and offers are objects, and their lists are arrays, as the gateway's types say.
pub mod Recorded
use beckn_data_commons.Base.{
  ℕ, String, Bool, true, false, not, ◌==◌, Option, none, some, List, [], ◌∷◌, ◌++◌, or_else,
  or_option, select, if◌then◌else◌,
}
use beckn_data_commons.Js.{Number}
use beckn_data_commons.Js.Map.{map_get, map_set, map_values}
use beckn_data_commons.Json.{Json, str, num, arr, obj, nil, end, get, nullish, element_0, items}
use beckn_data_commons.Json.Texts.{string_of}
use beckn_data_commons.Domain.{LicenseClass, license_class}
use beckn_data_commons.Zod.{string}

pub record OfferRef : Type 0 where
  pub offer_id : String
  pub bpp_id : String
  pub bpp_uri : String
  -- the first of `resourceIds`, or the empty text
  pub resource_id : Json
  pub name : String
  pub description : Option String
  pub kind : Option String
  pub modality : Option String
  pub task_type : Option String
  pub license : Option LicenseClass
  pub row_count : Option Number
  pub column_count : Option Number
  pub attributes : Json

pub record GrantRef : Type 0 where
  pub grant_id : String
  -- as it came from the platform, for the provider to read
  pub signed_grant : Json
  pub offer_id : String
  pub resource_id : String
  pub bpp_uri : String
  pub access_url : Option String

pub record SearchResponse : Type 0 where
  pub transaction_id : String
  pub catalogs : List Json

pub record BdcSession : Type 0 where
  pub last_transaction_id : Option String
  pub offers : List (String × OfferRef)
  pub grants : List (String × GrantRef)

abbrev number : Json → Option Number
number (num n) = some n
number _ = none

abbrev array : Json → List Json
array (arr vs) = items vs
array _ = []

abbrev name_of : Json → Json → String
name_of offer a =
    or_else
      (or_option (string (get "name" (get "descriptor" offer))) (string (get "schema:name" a)))
      (string_of (get "id" offer))

unfoldable pub offer_ref : Json → Json → OfferRef
offer_ref catalog offer =
    let a = nullish (get "offerAttributes" offer) (obj end) in
    record {
      offer_id = or_else (string (get "id" offer)) "";
      bpp_id = or_else (string (get "bppId" catalog)) "";
      bpp_uri = or_else (string (get "bppUri" catalog)) "";
      resource_id = nullish (element_0 (nullish (get "resourceIds" offer) (arr nil))) (str "");
      name = name_of offer a;
      description = string (get "schema:description" a);
      kind = string (get "bdc:resourceKind" a);
      modality = string (get "bdc:modality" a);
      task_type = string (get "bdc:taskType" a);
      license = license_class (get "bdc:licenseClass" a);
      row_count = number (get "dataset:rowCountEstimate" a);
      column_count = number (get "dataset:columnCount" a);
      attributes = a;
    }

-- `if (ref.offerId)`
unfoldable pub refs_of : Json → List Json → List OfferRef
refs_of catalog [] = []
refs_of catalog (offer ∷ offers) =
    let ref = offer_ref catalog offer in
    let rest = refs_of catalog offers in if ref.offer_id == "" then rest else ref ∷ rest

-- the offers of all catalogs, in their order
unfoldable pub all_refs : List Json → List OfferRef
all_refs [] = []
all_refs (catalog ∷ catalogs) = refs_of catalog (array (get "offers" catalog)) ++ all_refs catalogs

unfoldable pub set_offers : List OfferRef → List (String × OfferRef) → List (String × OfferRef)
set_offers [] m = m
set_offers (ref ∷ refs) m = set_offers refs (map_set ref.offer_id ref m)

-- each offer is set in the map as it is found
unfoldable pub record_search : SearchResponse → BdcSession → List OfferRef × BdcSession
record_search resp s =
    let found = all_refs resp.catalogs in
    (
      found,
      record s {
        last_transaction_id = some resp.transaction_id;
        offers = set_offers found s.offers;
      },
    )

unfoldable pub get_offer : String → BdcSession → Option OfferRef
get_offer offer_id s = map_get offer_id s.offers

abbrev pub list_offers : BdcSession → List OfferRef
list_offers s = map_values s.offers

unfoldable pub record_grant : GrantRef → BdcSession → BdcSession
record_grant ref s = record s { grants = map_set ref.grant_id ref s.grants }

unfoldable pub get_grant : String → BdcSession → Option GrantRef
get_grant grant_id s = map_get grant_id s.grants

-- the last of the values that is for the offer
unfoldable pub latest_of : String → List GrantRef → Option GrantRef
latest_of offer_id [] = none
latest_of offer_id (g ∷ gs) =
    or_option (latest_of offer_id gs) (if g.offer_id == offer_id then some g else none)

unfoldable pub latest_grant_for_offer : String → BdcSession → Option GrantRef
latest_grant_for_offer offer_id s = latest_of offer_id (map_values s.grants)

abbrev pub list_grant_refs : BdcSession → List GrantRef
list_grant_refs s = map_values s.grants
