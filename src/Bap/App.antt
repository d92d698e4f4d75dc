-- ===== src/Bap/App.antt =====
-- services/bap/src/app.ts: the callback routes, and the routes of `select` and `init` up to the wait
-- for the callback and from its end on. The three texts of a request are texts, as typed.
pub mod Guarded
pub mod Delivered
pub mod Settles
use Prim.Native.String
use beckn_data_commons.Base.{ℕ, String, Bool, true, false, Option, none, some, List, [], ◌∷◌, ◌>>=◌}
use beckn_data_commons.Json.{Json, str, obj, field, end, get, nullish}
use beckn_data_commons.Zod.{string}
use beckn_data_commons.Auth.Header.{present}
use beckn_data_commons.Auth.Message.{VerifyResult, accepted, refused}
use beckn_data_commons.Auth.Participant.{Delivery}
use beckn_data_commons.AccessManager.App.{Reply, answered, verify_reason_text}
use beckn_data_commons.Bap.Orchestrator.{CallbackResponse, Registry, deliver_callback}
use beckn_data_commons.Bap.Orchestrator.Journey.{
  BapConfig, BppEndpoint, start_single, single_result,
}

-- GET /health, at the time of the clock as a text
abbrev pub health : String → String → String → Json
health service_name bap_id timestamp = obj (
    field "status" (str "ok") (
      field "service" (str service_name)
        (field "bapId" (str bap_id) (field "timestamp" (str timestamp) end))))

-- POST /on_discover, /on_select, /on_init and /on_confirm, with the state of the verifier
unfoldable pub on_callback :
    {A : Type 0}
    → Option (Delivery → A → VerifyResult × A)
    → Delivery
    → A
    → Registry
    → Reply × A × Registry
on_callback none d a s = (
  answered 200 (obj (field "message" (obj (field "status" (str "ACK") end)) end)),
  a,
  deliver_callback d.body s,
)
on_callback (some verify_callback) d a s =
    let (auth, a') = verify_callback d a in
    elim auth [
      | refused reason ↦ (
        answered 401 (
            obj (
              field "message" (obj (field "status" (str "NACK") end)) (
                field "error"
                  (obj (
                    field "code" (str "UNAUTHENTICATED")
                      (field "reason" (str (verify_reason_text reason)) end)))
                  end))),
        a',
        s,
      )
      | accepted key_id ↦ (
        answered 200 (obj (field "message" (obj (field "status" (str "ACK") end)) end)),
        a',
        deliver_callback d.body s,
      )
    ]

abbrev pub error_json : String → String → Json
error_json name detail = obj (field "error" (str name) (field "detail" (str detail) end))

-- what an error of the orchestrator is
pub data Failure : Type 0 where
  timeout unknown_bpp upstream : String → Failure

-- `handleErr`
abbrev pub handle_err : Failure → Reply
handle_err (timeout detail) = answered 504 (error_json "timeout" detail)
handle_err (unknown_bpp detail) = answered 400 (error_json "unknown-bpp" detail)
handle_err (upstream detail) = answered 502 (error_json "upstream-error" detail)

abbrev text_of : String → Json → Option String
text_of key body = present (string (get key body))

-- a request that is answered at once, or one that waits for its callback
pub data Started : Type 0 where
  replied : Reply → Started
  waiting : BppEndpoint → Registry → Started

pub record ContractRequest : Type 0 where
  pub transaction_id : String
  pub bpp_id : String
  pub offer_id : String

unfoldable pub contract_request : Json → Option ContractRequest
contract_request body = do
  transaction_id ← text_of "transactionId" body
  bpp_id ← text_of "bppId" body
  offer_id ← text_of "offerId" body
  some (record { transaction_id = transaction_id; bpp_id = bpp_id; offer_id = offer_id })

-- POST /select and /init
unfoldable pub contract_route : BapConfig → String → Json → Registry → Started
contract_route config action body s = elim (contract_request (nullish body (obj end))) [
  | none ↦
      replied (answered 400 (error_json "bad-request" "transactionId, bppId, offerId are required"))
  | some r ↦ elim (start_single config action r.transaction_id r.bpp_id s) [
    | none ↦ replied (handle_err (unknown_bpp (String.◌++◌ "Unknown bppId: " r.bpp_id)))
    | some started ↦ waiting started.0 started.1
  ]
]

-- the answer once the wait has ended; `detail` is the message of the error
unfoldable pub contract_reply : String → List CallbackResponse → Reply
contract_reply detail responses = elim (single_result responses) [
  | none ↦ handle_err (timeout detail)
  | some contract ↦ answered 200 (obj (field "contract" contract end))
]
