-- ===== src/Bpp/Builders/Contexts.antt =====
-- What a callback's context says.
use beckn_data_commons.Base.{String, ◌==◌, ◌≡◌, refl, arith, eq_iff, if◌then◌else◌}
use beckn_data_commons.Json.{Json, str, Fields, end, field, get_field, set_field}
use beckn_data_commons.Beckn.{BecknContext}
use beckn_data_commons.Bpp.Builders.{BuildDeps, response_context}

pub get_field-set_field :
    (k j : String) (v : Json) (fs : Fields)
    → get_field j (set_field k v fs) ≡ (if k == j then v else get_field j fs)
unfolding get_field set_field
get_field-set_field k j v end = refl
get_field-set_field k j v (field i w fs) =
    ground (arith, eq_iff k j, eq_iff i k, eq_iff i j, get_field-set_field k j v fs)

-- The context of a callback names the action, this provider and the time, and keeps every other
-- property of the request's context, the transaction among them.
pub get_field-response_context :
    (req : BecknContext) (action key : String) (deps : BuildDeps)
    → get_field key (response_context req action deps) ≡ (
        if "timestamp" == key
        then str deps.now_iso
        else if "bppUri" == key
        then str deps.bpp_uri
        else if "bppId" == key
        then str deps.bpp_id
        else if "action" == key
        then str action
        else get_field key req.other)
unfolding response_context
get_field-response_context req action key deps =
    rw (get_field-set_field, get_field-set_field, get_field-set_field, get_field-set_field) refl
