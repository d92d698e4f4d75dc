-- ===== src/Beckn.antt =====
-- packages/beckn-schemas/src/context.ts: the context of a Beckn message, and the acknowledgement.
use Prim.Native.Char.{code}
use beckn_data_commons.Base.{
  ℕ, String, Bool, true, false, not, ◌&&◌, ◌||◌, ◌==◌, eqb, leb, Option, none, some, List, [], ◌∷◌,
  ◌>>=◌, such_that, or_else, if◌then◌else◌,
}
use beckn_data_commons.Json.{Json, obj, str, Fields, field, end, get}
use beckn_data_commons.Zod.{Zod, string, string_min_1, optional}

abbrev is_digit : ℕ → Bool
is_digit c = leb b'0' c && leb c b'9'

-- `\d+` and then the unit, where there was a digit before: what follows
unfoldable pub after_unit : Bool → ℕ → String → Option String
after_unit some_digit u String.[] = none
after_unit some_digit u (String.◌∷◌ c s) =
    let rest = after_unit true u s in
    if is_digit (code c) then rest else if some_digit && eqb (code c) u then some s else none

-- `(\d+u)?` for each unit in turn: a group that matches is taken
unfoldable pub after_units : List ℕ → String → String
unfolding after_unit
after_units [] s = s
after_units (u ∷ us) s = after_units us (or_else (after_unit false u s) s)

-- `T(?=\d)…` to the end
unfoldable pub is_time_part : String → Bool
unfolding after_units
is_time_part (String.◌∷◌ c (String.◌∷◌ d s)) =
    eqb (code c) b'T'
    && is_digit (code d)
    && after_units (b'H' ∷ b'M' ∷ b'S' ∷ []) (String.◌∷◌ d s) == ""
is_time_part _ = false

-- ISO_DURATION_RE
unfoldable pub is_duration : String → Bool
unfolding is_time_part
is_duration String.[] = false
is_duration (String.◌∷◌ c s) =
    let rest = after_units (b'Y' ∷ b'M' ∷ b'W' ∷ b'D' ∷ []) s in
    eqb (code c) b'P' && not (s == "") && (rest == "" || is_time_part rest)

-- A parsed context: what the schema names. `other` is the whole object, which `passthrough` keeps.
pub record BecknContext : Type 0 where
  pub bap_id : String
  pub bap_uri : String
  pub transaction_id : String
  pub message_id : String
  pub other : Fields

module _ (zod : Zod) where
  open zod use {uuid, url, datetime}

  abbrev fields_of : Json → Option Fields
  fields_of (obj fs) = some fs
  fields_of _ = none

  unfoldable pub beckn_context : Json → Option BecknContext
  unfolding get is_duration
  beckn_context v = do
    fs ← fields_of v
    network_id ← string_min_1 (get "networkId" v)
    action ← string_min_1 (get "action" v)
    version ← string_min_1 (get "version" v)
    bap_id ← string_min_1 (get "bapId" v)
    bap_uri ← such_that url (string (get "bapUri" v))
    bpp_id ← optional string_min_1 (get "bppId" v)
    bpp_uri ← optional (λ u. such_that url (string u)) (get "bppUri" v)
    transaction_id ← such_that uuid (string (get "transactionId" v))
    message_id ← such_that uuid (string (get "messageId" v))
    timestamp ← such_that datetime (string (get "timestamp" v))
    ttl ← such_that is_duration (string (get "ttl" v))
    some (record {
      bap_id = bap_id;
      bap_uri = bap_uri;
      transaction_id = transaction_id;
      message_id = message_id;
      other = fs;
    })

-- `ack(messageId)`
abbrev pub ack : String → Json
ack message_id = obj (
    field "message" (obj (field "status" (str "ACK") (field "messageId" (str message_id) end))) end)
