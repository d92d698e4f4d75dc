-- ===== src/Bap/App/Settles.antt =====
-- services/bap/src/orchestrator.ts: what a provider's callback does to the collector that waits for it.
use beckn_data_commons.Base.{
  String, false, ◌==◌, ◌≡◌, refl, ◌∙◌, ap, length, some, List, [], ◌∷◌, ◌++◌, get_elem?,
  get_elem?-update, get_elem?-last, Bool-cases, inl, inr,
}
use beckn_data_commons.Js.Text.{◌<>◌}
use beckn_data_commons.Js.Map.{map_get}
use beckn_data_commons.Js.Map.Laws.{map_get-map_set_self}
use beckn_data_commons.Json.{
  Json, undefined, str, obj, Fields, field, end, get, get_field, wire, wire_fields,
}
use beckn_data_commons.Json.Texts.{string_of, strip_on, without_prefix-append}
use beckn_data_commons.Beckn.{BecknContext}
use beckn_data_commons.Bpp.Builders.{
  BuildDeps, Response, response_context, build_on_select, build_on_init, build_on_confirm,
}
use beckn_data_commons.Bpp.Builders.Contexts.{get_field-response_context}
use beckn_data_commons.Bpp.App.{response_json}
use beckn_data_commons.Bap.Orchestrator.{
  CallbackResponse, Registry, key_of, collector, fan_out, resolve, push, collect, deliver_to,
  deliver_callback, route, Event, fanning, callback, step, steps, empty,
}
use beckn_data_commons.Bpp.Catalog.{Catalog}
use beckn_data_commons.Bap.Orchestrator.Collectors.{empty-IsWellFormed, steps-IsWellFormed}
use beckn_data_commons.Bap.Orchestrator.Settled.{IsSettled, steps-IsSettled_from}

-- a text that is read in an object is read in what JSON carries of it
get_field-wire_fields :
    (k t : String) (fs : Fields) → get_field k fs ≡ str t → get_field k (wire_fields fs) ≡ str t
unfolding get_field wire
get_field-wire_fields k t end h = h
get_field-wire_fields k t (field j undefined fs) h = elim (Bool-cases (j == k)) [
  | inl same ↦ cc (rw same at h)
  | inr other ↦ get_field-wire_fields k t fs (rw other at h)
]
get_field-wire_fields k t (field j v fs) h = elim (Bool-cases (j == k)) [
  | inl same ↦ rw same (ap wire (rw same at h))
  | inr other ↦ rw other (get_field-wire_fields k t fs (rw other at h))
]

deliver_to-fan_out :
    (r : CallbackResponse) (action t : String) (s : Registry)
    → IsSettled
        (length s.collectors)
        (r ∷ [])
        (deliver_to r (key_of t action) (fan_out action t 1 s))
unfolding deliver_to fan_out collect
deliver_to-fan_out r action t s =
    let cs = s.collectors ++ collector (key_of t action) 1 ∷ [] in
    let last : get_elem? (length s.collectors) cs ≡ some (collector (key_of t action) 1) =
      get_elem?-last s.collectors (collector (key_of t action) 1) in
    let known : map_get (key_of t action) (fan_out action t 1 s).pending
        ≡ some (length s.collectors) =
      map_get-map_set_self (key_of t action) (length s.collectors) s.pending in
    rw (known, deliver_to)
      (rw last (
        resolve (push r (collector (key_of t action) 1)),
        get_elem?-update (λ q. resolve (push r q)) (length s.collectors) cs
            (collector (key_of t action) 1) last,
        refl,
      ))

module _ (req : BecknContext) (action t : String) (deps : BuildDeps) (ms : Fields) where
  abbrev response : Response
  response = record { context = response_context req ("on_" <> action) deps; message = obj ms }

  deliver_callback-response_context :
      (s : Registry)
      → get_field "transactionId" req.other ≡ str t
      → (t == "") ≡ false
      → (action == "") ≡ false
      → deliver_callback (wire (response_json response)) s
        ≡ deliver_to
            (record { bpp_id = str deps.bpp_id; message = wire (obj ms) })
            (key_of t action)
            s
  unfolding deliver_callback route get wire get_field string_of strip_on
  deliver_callback-response_context s same named acted =
      let fs = response_context req ("on_" <> action) deps in
      let a =
        get_field-wire_fields "action" ("on_" <> action) fs
          (get_field-response_context req ("on_" <> action) "action" deps) in
      let b =
        get_field-wire_fields "bppId" deps.bpp_id fs
          (get_field-response_context req ("on_" <> action) "bppId" deps) in
      let c =
        get_field-wire_fields "transactionId" t fs
          (get_field-response_context req ("on_" <> action) "transactionId" deps ∙ same) in
      rw (a, b, c, without_prefix-append) (rw (acted, named) refl)

-- the events of a round: the fan-out to one provider, and its callback as JSON carries it
abbrev pub round : String → String → Response → List Event
round action t response = fanning action t 1 ∷ callback (wire (response_json response)) ∷ []

-- the callback that a collector is settled with
abbrev pub answer_of : BuildDeps → Response → CallbackResponse
answer_of deps response = record { bpp_id = str deps.bpp_id; message = wire response.message }

module _ (req : BecknContext) (t : String) (deps : BuildDeps) (earlier later : List Event) where
  -- the promise of the round's fan-out, after what comes later
  abbrev pub IsAnsweredBy : String → Response → Type 0
  IsAnsweredBy action response =
      IsSettled (length (steps earlier empty).collectors) (answer_of deps response ∷ [])
        (steps later (steps (round action t response) (steps earlier empty)))

  round-IsAnsweredBy :
      (action : String) (ms : Fields)
      → get_field "transactionId" req.other ≡ str t
      → (t == "") ≡ false
      → (action == "") ≡ false
      → IsAnsweredBy action (response req action t deps ms)
  unfolding steps step
  round-IsAnsweredBy action ms same named acted =
      let s = steps earlier empty in
      let here : IsSettled (length s.collectors)
          (answer_of deps (response req action t deps ms) ∷ [])
          (steps (round action t (response req action t deps ms)) s) =
        rw
          (deliver_callback-response_context req action t deps ms (fan_out action t 1 s) same named
            acted)
          (deliver_to-fan_out (answer_of deps (response req action t deps ms)) action t s) in
      steps-IsSettled_from _ _ later _
        (steps-IsWellFormed (round action t (response req action t deps ms)) s
          (steps-IsWellFormed earlier empty empty-IsWellFormed))
        here

  -- At a platform with any history, a fan-out of `select`, `init` or `confirm` to one provider and then
  -- the callback that the provider builds for a context with that transaction, as JSON carries it,
  -- settle the promise of the fan-out with the name and the message of the provider's callback alone,
  -- and it holds that value whatever happens later.
  pub round-settles :
      (catalog : Catalog) (message : Json)
      → get_field "transactionId" req.other ≡ str t
      → (t == "") ≡ false
      → IsAnsweredBy "select" (build_on_select req catalog message deps)
        × IsAnsweredBy "init" (build_on_init req catalog message deps)
        × IsAnsweredBy "confirm" (build_on_confirm req catalog message deps)
  unfolding build_on_select build_on_init build_on_confirm
  round-settles catalog message same named = (
    round-IsAnsweredBy "select" _ same named refl,
    round-IsAnsweredBy "init" _ same named refl,
    round-IsAnsweredBy "confirm" _ same named refl,
  )
