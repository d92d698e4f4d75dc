-- ===== src/Mcp/Session/Recorded.antt =====
-- What a session remembers.
use beckn_data_commons.Base.{
  String, ◌==◌, ◌≡◌, refl, ◌∙◌, arith, Option, none, some, List, [], ◌∷◌, or_option, eq_refl,
  Bool-cases, inl, inr, if◌then◌else◌,
}
use beckn_data_commons.Js.Map.{map_get, map_set, map_values}
use beckn_data_commons.Js.Map.Laws.{map_get-map_set}
use beckn_data_commons.Mcp.Session.{
  OfferRef, GrantRef, SearchResponse, BdcSession, all_refs, set_offers, record_search, get_offer,
  record_grant, latest_of, latest_grant_for_offer,
}

-- the last offer with this id among those that were found
unfoldable pub last_with : String → List OfferRef → Option OfferRef
last_with offer_id [] = none
last_with offer_id (r ∷ rs) =
    or_option (last_with offer_id rs) (if r.offer_id == offer_id then some r else none)

or_option_assoc :
    {A : Type 0} (a b c : Option A) → or_option a (or_option b c) ≡ or_option (or_option a b) c
or_option_assoc none b c = refl
or_option_assoc (some x) b c = refl

map_get-set_offers :
    (offer_id : String) (refs : List OfferRef) (m : List (String × OfferRef))
    → map_get offer_id (set_offers refs m)
      ≡ or_option (last_with offer_id refs) (map_get offer_id m)
unfolding set_offers last_with
map_get-set_offers offer_id [] m = refl
map_get-set_offers offer_id (r ∷ rs) m =
    map_get-set_offers offer_id rs (map_set r.offer_id r m)
    ∙ rw (map_get-map_set r.offer_id offer_id r m) (elim (Bool-cases (r.offer_id == offer_id)) [
      | inl same ↦ rw same (or_option_assoc (last_with offer_id rs) (some r) (map_get offer_id m))
      | inr other ↦ rw other (or_option_assoc (last_with offer_id rs) none (map_get offer_id m))
    ])

-- After a search an offer id stands for the last offer with this id that the search found, and for
-- what it stood for before when the search found none.
pub get_offer-record_search :
    (offer_id : String) (resp : SearchResponse) (s : BdcSession)
    → get_offer offer_id (record_search resp s).1
      ≡ or_option (last_with offer_id (record_search resp s).0) (get_offer offer_id s)
unfolding get_offer record_search
get_offer-record_search offer_id resp s =
    map_get-set_offers offer_id (all_refs resp.catalogs) s.offers

latest_of-map_set :
    (g : GrantRef) (m : List (String × GrantRef))
    → map_get g.grant_id m ≡ none
    → latest_of g.offer_id (map_values (map_set g.grant_id g m)) ≡ some g
unfolding latest_of map_values map_set map_get
latest_of-map_set g [] h = rw (eq_refl g.offer_id)
latest_of-map_set g ((k, w) ∷ m) h = ground (arith, latest_of-map_set g m)

-- A grant with a new id is, once it is recorded, the latest for its offer.
pub latest_grant_for_offer-record_grant :
    (g : GrantRef) (s : BdcSession)
    → map_get g.grant_id s.grants ≡ none
    → latest_grant_for_offer g.offer_id (record_grant g s) ≡ some g
unfolding latest_grant_for_offer record_grant
latest_grant_for_offer-record_grant g s h = latest_of-map_set g s.grants h
