-- ===== src/Bap/Orchestrator.antt =====
-- services/bap/src/orchestrator.ts: the collectors of callbacks, and what is sent for them. A promise
-- is a field of its collector; `clearTimeout` is that a collector whose promise is resolved has no
-- timer left.
pub mod Collectors
pub mod Settled
pub mod Journey
use Prim.Native.String
use Prim.Native.Char.{Char, code}
use beckn_data_commons.Base.{
  ℕ, ◌+◌, ◌≤◌, String, Bool, true, false, ◌||◌, ◌==◌, leb, eqb, or_else, length, Option, none, some,
  List, [], ◌∷◌, ◌++◌, map, is_some, get_elem?, update, find, if◌then◌else◌,
}
use beckn_data_commons.Js.{number_text}
use beckn_data_commons.Js.Text.{join}
use beckn_data_commons.Js.Map.{map_get, map_set, map_delete}
use beckn_data_commons.Json.Texts.{string_of, strip_on}
use beckn_data_commons.Json.{
  Json, undefined, null, bool, num, str, arr, obj, Items, nil, cons, Fields, end, field, get,
  nullish,
}

pub record CallbackResponse : Type 0 where
  pub bpp_id : Json
  pub message : Json

pub record Pending : Type 0 where
  pub key : String
  pub expected : ℕ
  pub responses : List CallbackResponse
  -- what the promise of `fanOut` was resolved with
  pub result : Option (List CallbackResponse)

-- All collectors, by their number, and the map `pending`.
pub record Registry : Type 0 where
  pub collectors : List Pending
  pub pending : List (String × ℕ)

abbrev pub empty : Registry
empty = record { collectors = []; pending = [] }

unfoldable pub key_of : String → String → String
key_of transaction_id action = String.◌++◌ transaction_id (String.◌++◌ ":" action)

abbrev pub collector : String → ℕ → Pending
collector k expected = record { key = k; expected = expected; responses = []; result = none }

-- `fanOut` but the sends: a new collector stands in the map, in place of one with its key
unfoldable pub fan_out : String → String → ℕ → Registry → Registry
fan_out action transaction_id expected s =
    let k = key_of transaction_id action in
    record {
      collectors = s.collectors ++ collector k expected ∷ [];
      pending = map_set k (length s.collectors) s.pending;
    }

-- `resolve(pending.responses)`, once
abbrev pub resolve : Pending → Pending
resolve p = record p { result = some p.responses }

abbrev pub push : CallbackResponse → Pending → Pending
push r p = record p { responses = p.responses ++ r ∷ [] }

-- the callback for the collector `n`, and `finish` when it was the last that is expected
unfoldable pub collect : CallbackResponse → ℕ → Pending → Registry → Registry
collect r n p s =
    if leb p.expected (length (push r p).responses)
    then (record {
      collectors = update (λ q. resolve (push r q)) n s.collectors;
      pending = map_delete p.key s.pending;
    })
    else (record s { collectors = update (push r) n s.collectors })

unfoldable pub deliver_to : CallbackResponse → String → Registry → Registry
deliver_to r k s = elim (map_get k s.pending) [
  | none ↦ s
  | some n ↦ elim (get_elem? n s.collectors) [ none ↦ s | some p ↦ collect r n p s ]
]

abbrev pub context_of : Json → Json
context_of envelope = nullish (get "context" envelope) (obj end)

-- neither the action nor the transaction may be empty
unfoldable pub route : String → String → CallbackResponse → Registry → Registry
route base_action transaction_id r s =
    if base_action == "" || transaction_id == ""
    then s
    else deliver_to r (key_of transaction_id base_action) s

unfoldable pub deliver_callback : Json → Registry → Registry
deliver_callback envelope s =
    let ctx = context_of envelope in
    route (strip_on (string_of (nullish (get "action" ctx) (str ""))))
      (string_of (nullish (get "transactionId" ctx) (str "")))
      (record { bpp_id = get "bppId" ctx; message = nullish (get "message" envelope) (obj end) }) s

-- the timer of the collector `n`, if it was not cleared: it takes the key out of the map, whichever
-- collector stands there
unfoldable pub time_out : ℕ → Registry → Registry
time_out n s = elim (get_elem? n s.collectors) [
  | none ↦ s
  | some p ↦ if is_some p.result then s else (record {
    collectors = update resolve n s.collectors;
    pending = map_delete p.key s.pending;
  })
]

-- What happens at the platform: a fan-out, a callback, the end of a window.
pub data Event : Type 0 where
  fanning : String → String → ℕ → Event
  callback : Json → Event
  window_end : ℕ → Event

unfoldable pub step : Event → Registry → Registry
step (fanning action transaction_id expected) s = fan_out action transaction_id expected s
step (callback envelope) s = deliver_callback envelope s
step (window_end n) s = time_out n s

unfoldable pub steps : List Event → Registry → Registry
steps [] s = s
steps (e ∷ es) s = steps es (step e s)
