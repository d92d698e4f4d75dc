-- ===== src/Bap/Client/Typed.antt =====
-- services/bap/src/app.ts: a confirmation whose grantee is as typed.
use beckn_data_commons.Base.{
  String, ap, ◌≡◌, ◌∙◌, refl, Option, none, some, List, Option-cases, inl, inr,
}
use beckn_data_commons.Json.{Json, undefined, str, obj, field, end, wire}
use beckn_data_commons.Grant.Types.{grantee_json}
use beckn_data_commons.Http.{Request, Response}
use beckn_data_commons.AccessManager.App.{Reply, answered}
use beckn_data_commons.Bap.App.{handle_err, upstream}
use beckn_data_commons.Bap.Orchestrator.{CallbackResponse}
use beckn_data_commons.Bap.Orchestrator.Journey.{
  BppEndpoint, ConfirmParams, confirm_request, request_json, single_result,
}
use beckn_data_commons.Bap.Transport.{Sign, credential_of, issue}
use beckn_data_commons.Bap.Client.{
  Confirmation, confirmation_json, reply_for, confirmation_reply, confirm_reply,
}

-- a public key that is not given is `undefined`
abbrev pub key_json : Option String → Json
key_json none = undefined
key_json (some k) = str k

abbrev pub as_confirmation : ConfirmParams → Confirmation
as_confirmation p = record {
  transaction_id = p.transaction_id;
  bpp_id = p.bpp_id;
  bpp_uri = p.bpp_uri;
  offer_id = p.offer_id;
  resource_id = p.resource_id;
  grantee_id = str p.grantee.id;
  public_key = key_json p.grantee.public_key;
  purpose = p.purpose;
  license = p.license;
  scope = p.scope;
}

wire-grantee :
    (id : String) (key : Option String)
    → wire (obj (field "id" (str id) (field "publicKey" (key_json key) end)))
      ≡ wire (grantee_json (record { id = id; public_key = key }))
unfolding wire
wire-grantee id none = refl
wire-grantee id (some k) = refl

wire-confirmation_json :
    (p : ConfirmParams) (target : BppEndpoint)
    → wire (confirmation_json (as_confirmation p) target)
      ≡ wire (request_json (confirm_request p target))
unfolding wire confirmation_json request_json confirm_request
wire-confirmation_json p target = rw (wire-grantee p.grantee.id p.grantee.public_key) refl

module _ {N : Type 0} (fetch : Request → N → Option Response × N) (access_manager_url : String)
    (sign : Sign) where
  issue_alike :
      (a b : Json) (n : N)
      → credential_of sign a ≡ credential_of sign b
      → wire a ≡ wire b
      → issue fetch access_manager_url sign a n ≡ issue fetch access_manager_url sign b n
  unfolding issue
  issue_alike a b n same sent = elim (Option-cases (credential_of sign b)) [
    | inl failed ↦ rw (same ∙ failed, issue) (rw (failed, issue) refl)
    | inr (credential, signed) ↦ rw (same ∙ signed, issue) (rw (signed, issue) (rw sent refl))
  ]

  reply_for_alike :
      (late failed : String) (a b : Json) (responses : List CallbackResponse) (n : N)
      → issue fetch access_manager_url sign a n ≡ issue fetch access_manager_url sign b n
      → reply_for fetch access_manager_url sign late failed a responses n
        ≡ reply_for fetch access_manager_url sign late failed b responses n
  unfolding reply_for
  reply_for_alike late failed a b responses n alike =
      let granted : Json → Option Json × N → Reply × N = λ contract r. elim r.0 [
        | none ↦ (handle_err (upstream failed), r.1)
        | some g ↦ (answered 200 (obj (field "contract" contract (field "grant" g end))), r.1)
      ] in
      elim (Option-cases (single_result responses)) [
        | inl nothing ↦ rw (nothing, reply_for) refl
        | inr (contract, collected) ↦ rw (collected, reply_for) (ap (granted contract) alike)
      ]

  -- What the route hands over for a grantee as typed is replied to as its parameters are, when the
  -- signer does not tell a property that is `undefined` from one that is absent.
  pub confirmation_reply-as_confirmation :
      (late failed : String) (p : ConfirmParams) (target : BppEndpoint)
      (responses : List CallbackResponse) (n : N)
      → credential_of sign (confirmation_json (as_confirmation p) target)
        ≡ credential_of sign (request_json (confirm_request p target))
      → confirmation_reply fetch access_manager_url sign late failed
          (as_confirmation p)
          target
          responses
          n
        ≡ confirm_reply fetch access_manager_url sign late failed p target responses n
  unfolding confirmation_reply confirm_reply
  confirmation_reply-as_confirmation late failed p target responses n same =
      reply_for_alike late failed _ _ responses n
        (issue_alike _ _ n same (wire-confirmation_json p target))
