-- ===== src/Bpp/App/Dispatched.antt =====
-- When a provider sends a callback.
use beckn_data_commons.Base.{String, ◌≡◌, ◌⊎◌, inl, inr, refl, Option, none, some, Option-cases}
use beckn_data_commons.Js.Text.{◌<>◌}
use beckn_data_commons.Js.Uri.{without_slash}
use beckn_data_commons.Json.Texts.{string_of}
use beckn_data_commons.Json.{Json, obj, end, get, nullish}
use beckn_data_commons.Zod.{Zod}
use beckn_data_commons.Auth.Message.{VerifyReason, VerifyResult, accepted, refused}
use beckn_data_commons.Auth.Message.Accepted.{VerifyResult-cases}
use beckn_data_commons.Auth.Participant.{Delivery}
use beckn_data_commons.Beckn.{BecknContext, beckn_context, ack}
use beckn_data_commons.AccessManager.App.{Reply, answered}
use beckn_data_commons.Bpp.Builders.{BuildDeps, Response}
use beckn_data_commons.Bpp.App.{Dispatch, respond, beckn_route}

module _ (zod : Zod) (build : BecknContext → Json → BuildDeps → Response) (deps : BuildDeps) where
  abbrev pub IsAnswered : Json → Reply → Option Dispatch → Type 0
  IsAnswered body reply dispatch =
      (ctx : BecknContext) × (beckn_context zod (get "context" body) ≡ some ctx)
      × (reply ≡ answered 200 (ack ctx.message_id))
      × (dispatch
          ≡ some (record {
            url =
                without_slash ctx.bap_uri
                <> "/"
                <> string_of (get "action" (obj (build ctx (get "message" body) deps).context));
            payload = build ctx (get "message" body) deps;
          }))

  respond-IsAnswered :
      (body : Json)
      → ((beckn_context zod (get "context" body) ≡ none) × ((respond zod build deps body).1 ≡ none))
        ⊎ IsAnswered body (respond zod build deps body).0 (respond zod build deps body).1
  unfolding respond
  respond-IsAnswered body = elim (Option-cases (beckn_context zod (get "context" body))) [
    | inl bad ↦ rw (bad, respond) (inl (refl, refl))
    | inr (ctx, good) ↦ rw (good, respond) (inr (ctx, refl, refl, refl))
  ]

  -- A Beckn route behind a verifier either sends no callback, since the verifier has refused the message
  -- or its context does not meet the schema, or the verifier has accepted the
  -- message, its context meets the schema, the reply acknowledges the message, and one callback goes
  -- to the sender's address without its last slash, a slash and the action of the callback, with what
  -- is built for that context.
  pub beckn_route-dispatched :
      {A : Type 0} (verify_request : Delivery → A → VerifyResult × A) (d : Delivery) (a : A)
      → let body = nullish d.body (obj end) in
        let r = beckn_route zod build deps (some verify_request) d a in
        (((r.1 ≡ none)
          × (((reason : VerifyReason) × ((verify_request (record d { body = body }) a).0
                  ≡ refused reason))
              ⊎ (beckn_context zod (get "context" body) ≡ none))))
        ⊎ ((key_id : String) × ((verify_request (record d { body = body }) a).0 ≡ accepted key_id)
            × IsAnswered body r.0 r.1)
  unfolding beckn_route
  beckn_route-dispatched verify_request d a =
      let body = nullish d.body (obj end) in
      elim (VerifyResult-cases (verify_request (record d { body = body }) a).0) [
        | inr (reason, bad) ↦ rw (bad, beckn_route) (inl (refl, inl (reason, refl)))
        | inl (key_id, good) ↦ elim (respond-IsAnswered body) [
          | inl (bad, silent) ↦ rw (good, beckn_route) (inl (silent, inr bad))
          | inr done ↦ rw (good, beckn_route) (inr (key_id, refl, done))
        ]
      ]
