-- ===== src/Tests/Collectors.antt =====
-- Fan-outs at concrete inputs.
use beckn_data_commons.Base.{◌≡◌, refl, some, List, [], ◌∷◌, get_elem?}
use beckn_data_commons.Json.{str, obj, end}
use beckn_data_commons.Bap.Orchestrator.{
  CallbackResponse, empty, key_of, collector, fan_out, deliver_to, time_out, Event, fanning,
  window_end, step, steps,
}
use beckn_data_commons.Bap.Orchestrator.Settled.{IsSettled, steps-IsSettled, time_out-forgets}

abbrev answer : CallbackResponse
answer = record { bpp_id = str "bpp"; message = obj end }

abbrev twice : List Event
twice = fanning "select" "t-1" 1 ∷ fanning "select" "t-1" 1 ∷ []

abbrev window_over : List Event
window_over = fanning "select" "t-1" 1 ∷ window_end 0 ∷ []

over-IsSettled : IsSettled 0 [] (steps window_over empty)
unfolding steps step fan_out time_out
over-IsSettled = (_, refl, refl)

steps-IsSettled_example : IsSettled 0 [] (steps twice (steps window_over empty))
steps-IsSettled_example = steps-IsSettled window_over twice 0 [] over-IsSettled

first-open : get_elem? 0 (steps twice empty).collectors ≡ some (collector (key_of "t-1" "select") 1)
unfolding steps step fan_out
first-open = refl

time_out-forgets_example :
    deliver_to answer (key_of "t-1" "select") (time_out 0 (steps twice empty))
    ≡ time_out 0 (steps twice empty)
time_out-forgets_example =
    time_out-forgets answer 0 (collector (key_of "t-1" "select") 1) (steps twice empty) first-open
      refl
