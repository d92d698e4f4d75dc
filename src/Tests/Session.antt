-- ===== src/Tests/Session.antt =====
-- Sessions and callbacks at concrete inputs.
use beckn_data_commons.Base.{String, ◌≡◌, ◌⊎◌, some, [], ◌∷◌}
use beckn_data_commons.Auth.ReplayCache.{empty}
use beckn_data_commons.Auth.Message.{accepted}
use beckn_data_commons.Auth.Participant.{participant_verify}
use beckn_data_commons.Bap.Orchestrator
use beckn_data_commons.Bap.Orchestrator.{deliver_callback, steps, fanning}
use beckn_data_commons.Bap.App.{on_callback}
use beckn_data_commons.Bap.App.Guarded.{on_callback-guarded}
use beckn_data_commons.Tests.Noble.{toy}
use beckn_data_commons.Tests.Data.{other_numbers}
use beckn_data_commons.Tests.Auth.{am, delivery}

on_callback-guarded_example :
    (let r =
        on_callback
          (some (participant_verify toy other_numbers am))
          delivery
          empty
          (steps (fanning "select" "t-1" 1 ∷ []) Orchestrator.empty) in
      (r.2 ≡ steps (fanning "select" "t-1" 1 ∷ []) Orchestrator.empty)
      ⊎ ((key_id : String) × ((participant_verify toy other_numbers am delivery empty).0
            ≡ accepted key_id)
          × (r.2
              ≡ deliver_callback delivery.body
                  (steps (fanning "select" "t-1" 1 ∷ []) Orchestrator.empty))))
on_callback-guarded_example =
    on_callback-guarded (participant_verify toy other_numbers am) delivery empty
      (steps (fanning "select" "t-1" 1 ∷ []) Orchestrator.empty)
