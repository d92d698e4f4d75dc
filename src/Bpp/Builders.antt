-- ===== src/Bpp/Builders.antt =====
-- services/bpp/src/beckn/builders.ts: the callbacks of a provider.
pub mod Contexts
use Prim.Native.Char.{Char, code}
use Prim.Native.String
use Prim.Native.String.{char_at}
use beckn_data_commons.Base.{
  ℕ, ◌/◌, ◌%◌, String, Bool, true, false, ◌==◌, ◌&&◌, ◌||◌, leb, Option, none, some, List, [], ◌∷◌,
  ◌>>=◌, or_else, first, contains, such_that, eqb, if◌then◌else◌,
}
use beckn_data_commons.Js.Uri.{encode_uri_component}
use beckn_data_commons.Json.{
  Json, undefined, null, bool, str, arr, obj, Items, nil, cons, Fields, end, field, get, items,
  from_items, set_field, nullish, element_0,
}
use beckn_data_commons.Json.Texts.{string_of}
use beckn_data_commons.Zod.{string, positive, optional, not_nil}
use beckn_data_commons.Beckn.{BecknContext}
use beckn_data_commons.Bpp.Intent.{extract_intent, extract_offer_id, offer_of}
use beckn_data_commons.Bpp.Catalog.{Offer, Catalog, SearchIntent, no_intent, get_offer, search}

pub record BuildDeps : Type 0 where
  pub bpp_id : String
  pub bpp_uri : String
  pub now_iso : String

-- `{ ...req, action, bppId, bppUri, timestamp }`
unfoldable pub response_context : BecknContext → String → BuildDeps → Fields
response_context req action deps = set_field "timestamp" (str deps.now_iso) (
    set_field "bppUri" (str deps.bpp_uri)
      (set_field "bppId" (str deps.bpp_id) (set_field "action" (str action) req.other)))

abbrev one : Json → Json
one v = arr (cons v nil)

abbrev code_json : String → Json
code_json c = obj (field "code" (str c) end)

abbrev participant : String → Json → Json
participant role id = obj (field "role" (str role) (field "id" id end))

abbrev optional_text : Option String → Json
optional_text none = undefined
optional_text (some s) = str s

abbrev commitment : String → Json
commitment offer_id = str (String.◌++◌ "commitment-" offer_id)

abbrev name_of : Option Offer → String
name_of none = "Data access contract"
name_of (some o) = o.name

abbrev commitments_of : Json → Option Offer → Json
commitments_of offer_id none = arr nil
commitments_of offer_id (some o) =
    one (obj (field "id" (commitment (string_of offer_id)) (field "offerId" offer_id end)))

abbrev consideration_of : Option Offer → Json
consideration_of o = or_else (o >>= λ offer. first offer.considerations) null

unfoldable pub base_contract : BecknContext → Json → String → Catalog → Fields
base_contract req offer_id status_code catalog =
    let offer = offer_of offer_id catalog in
    field "id" (str (String.◌++◌ "contract-" req.transaction_id)) (
      field "descriptor" (obj (field "name" (str (name_of offer)) end)) (
        field "status" (code_json status_code) (
          field "participants"
            (arr (
              from_items (
                participant "BAP" (str req.bap_id)
                ∷ participant "BPP" (optional_text catalog.bpp_id)
                ∷ [])))
            (field "commitments" (commitments_of offer_id offer)
              (field "consideration" (consideration_of offer) end)))))

-- the context and the message of a callback
pub record Response : Type 0 where
  pub context : Fields
  pub message : Json

-- the characters that `encodeURIComponent` leaves
-- the URL of the download, with the texts of what was named
unfoldable pub download_url : BuildDeps → Json → String → String
unfolding encode_uri_component string_of
download_url deps offer_id resource_id = String.◌++◌ deps.bpp_uri (
    String.◌++◌ "/download?offerId=" (
      String.◌++◌ (encode_uri_component (string_of offer_id))
        (String.◌++◌ "&resourceId=" (encode_uri_component resource_id))))

abbrev performance : BecknContext → Json → String → String → Json
performance req offer_id resource_id url = obj (
    field "id" (str (String.◌++◌ "ffl-" req.transaction_id)) (
      field "status" (code_json "PENDING") (
        field "commitmentIds" (one (commitment (string_of offer_id))) (
          field "performanceAttributes"
            (obj (
              field "@type" (str "DatasetFulfillment") (
                field "fulfillment:accessMethod" (str "DOWNLOAD") (
                  field "fulfillment:accessUrl" (str url) (
                    field "bdc:requiresGrant" (bool true) (
                      field "bdc:grantResource"
                        (obj (field "resourceId" (str resource_id) (field "offerId" offer_id end)))
                        end))))))
            end))))

abbrev named_offer : Json → Json
named_offer message = nullish (extract_offer_id message) (str "")

abbrev contract_message : Fields → Json
contract_message contract = obj (field "contract" (obj contract) end)

unfoldable pub build_on_select : BecknContext → Catalog → Json → BuildDeps → Response
build_on_select req catalog message deps = record {
  context = response_context req "on_select" deps;
  message = contract_message (base_contract req (named_offer message) "DRAFT" catalog);
}

unfoldable pub build_on_init : BecknContext → Catalog → Json → BuildDeps → Response
build_on_init req catalog message deps = record {
  context = response_context req "on_init" deps;
  message = contract_message (base_contract req (named_offer message) "ACTIVE" catalog);
}

-- `offer?.resourceIds[0] ?? ''`
abbrev resource_of : Option Offer → String
resource_of o = or_else (o >>= λ offer. first offer.resource_ids) ""

unfoldable pub build_on_confirm : BecknContext → Catalog → Json → BuildDeps → Response
build_on_confirm req catalog message deps =
    let offer_id = named_offer message in
    let resource_id = resource_of (offer_of offer_id catalog) in
    record {
      context = response_context req "on_confirm" deps;
      message = contract_message (
          set_field "performance"
            (one (performance req offer_id resource_id (download_url deps offer_id resource_id)))
            (base_contract req offer_id "ACTIVE" catalog));
    }

-- the catalogs of the answer: the filtered one, when an offer is left. `to_json` writes a catalog.
unfoldable pub build_on_discover :
    (String → String) → (Catalog → Json) → BecknContext → Catalog → Json → BuildDeps → Response
build_on_discover to_lower_case to_json req catalog message deps =
    let filtered = search to_lower_case (extract_intent message) catalog in
    record {
      context = response_context req "on_discover" deps;
      message = obj (
          field "catalogs" (if not_nil filtered.offers then one (to_json filtered) else arr nil)
            end);
    }
