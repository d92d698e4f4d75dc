-- ===== src/Web/Offers.antt =====
-- apps/web/src/lib/offers.ts: the offers of a search, as objects with what is absent `undefined`.
-- Lists are arrays, as typed.
use beckn_data_commons.Base.{String, ◌==◌, List, [], ◌∷◌, ◌++◌, or_else, or_option, if◌then◌else◌}
use beckn_data_commons.Json.{
  Json, undefined, str, num, arr, obj, nil, field, end, get, nullish, element_0, items,
}
use beckn_data_commons.Json.Texts.{string_of}
use beckn_data_commons.Zod.{string}

-- `str` and `num`
abbrev text_of : Json → Json
text_of (str s) = str s
text_of _ = undefined

abbrev number_of : Json → Json
number_of (num n) = num n
number_of _ = undefined

abbrev text_or_empty : Json → String
text_or_empty v = or_else (string v) ""

abbrev name_of : Json → Json → String
name_of offer a =
    or_else
      (or_option (string (get "name" (get "descriptor" offer))) (string (get "schema:name" a)))
      (string_of (nullish (get "id" offer) (str "")))

unfoldable pub offer_json : Json → Json → Json
unfolding string_of
offer_json catalog offer =
    let a = nullish (get "offerAttributes" offer) (obj end) in
    obj (
      field "offerId" (str (text_or_empty (get "id" offer))) (
        field "bppId" (str (text_or_empty (get "bppId" catalog))) (
          field "bppUri" (str (text_or_empty (get "bppUri" catalog))) (
            field "resourceId"
              (nullish (element_0 (nullish (get "resourceIds" offer) (arr nil))) (str ""))
              (field "name" (str (name_of offer a)) (
                field "description" (text_of (get "schema:description" a)) (
                  field "kind" (text_of (get "bdc:resourceKind" a)) (
                    field "modality" (text_of (get "bdc:modality" a)) (
                      field "taskType" (text_of (get "bdc:taskType" a)) (
                        field "licenseClass" (text_of (get "bdc:licenseClass" a)) (
                          field "rowCount" (number_of (get "dataset:rowCountEstimate" a)) (
                            field "columnCount" (number_of (get "dataset:columnCount" a))
                              (field "attributes" a end)))))))))))))

-- `if (ref.offerId)`
unfoldable pub offers_of : Json → List Json → List Json
unfolding offer_json
offers_of catalog [] = []
offers_of catalog (offer ∷ offers) =
    let rest = offers_of catalog offers in
    if text_or_empty (get "id" offer) == "" then rest else offer_json catalog offer ∷ rest

abbrev array : Json → List Json
array (arr vs) = items vs
array _ = []

unfoldable pub flatten_offers : List Json → List Json
unfolding offers_of
flatten_offers [] = []
flatten_offers (catalog ∷ catalogs) =
    offers_of catalog (array (get "offers" catalog)) ++ flatten_offers catalogs
