-- ===== src/Bap/Client/Started.antt =====
-- services/bap/src/app.ts: what the route of `confirm` lets through.
use beckn_data_commons.Base.{
  String, Bool, true, false, ◌==◌, ◌≡◌, ◌⊎◌, inl, inr, refl, Option, none, some, List, [], ◌∷◌,
  find, Option-cases, Bool-cases, arith, All, ◌&&◌, if◌then◌else◌,
}
use beckn_data_commons.Js.Text.{◌<>◌}
use beckn_data_commons.Json.{Json, undefined, obj, end, get, nullish}
use beckn_data_commons.Json.Texts.{string_of}
use beckn_data_commons.Domain.{LicenseClass, license_class}
use beckn_data_commons.Grant.Types.{GrantScope}
use beckn_data_commons.Grant.Parse.{grant_scope}
use beckn_data_commons.AccessManager.App.{answered}
use beckn_data_commons.Bap.Orchestrator.{Registry, fan_out}
use beckn_data_commons.Bap.Orchestrator.Journey.{BapConfig, BppEndpoint, resolve_bpp, start_single}
use beckn_data_commons.Bap.App.{error_json}
use beckn_data_commons.Bap.Client.{
  truthy, Confirmation, good, bad, replied, waiting, has_texts, scope_of, params_of, check_confirm,
  start_confirm, confirm_route,
}

-- A scope that is not given, or one that the schema reads.
abbrev pub IsScope : Json → Option GrantScope → Type 0
IsScope undefined scope = scope ≡ none
IsScope v scope = (s : GrantScope) × (grant_scope v ≡ some s) × (scope ≡ some s)

abbrev pub IsBadScope : Json → Type 0
IsBadScope undefined = ⊥
IsBadScope v = grant_scope v ≡ none

-- the properties that must be there
abbrev pub required : List String
required = "transactionId" ∷ "bppId" ∷ "offerId" ∷ "resourceId" ∷ "purpose" ∷ []

-- One of the properties is not there, or is empty.
abbrev pub IsShort : List String → Json → Type 0
IsShort [] b = ⊥
IsShort (name ∷ names) b = (truthy (get name b) ≡ false) ⊎ IsShort names b

-- What the body of a confirmation must have, and what is taken of it.
pub record IsComplete (b : Json) (c : Confirmation) : Type 0 where
  pub given : All (λ name. truthy (get name b) ≡ true) required
  pub grantee : truthy (get "id" (get "grantee" b)) ≡ true
  pub license : license_class (get "licenseClass" b) ≡ some c.license
  pub scope : IsScope (get "scope" b) c.scope
  pub transaction_id : c.transaction_id ≡ string_of (get "transactionId" b)
  pub bpp_id : c.bpp_id ≡ string_of (get "bppId" b)
  pub bpp_uri :
      c.bpp_uri ≡ (if truthy (get "bppUri" b) then some (string_of (get "bppUri" b)) else none)
  pub offer_id : c.offer_id ≡ string_of (get "offerId" b)
  pub resource_id : c.resource_id ≡ string_of (get "resourceId" b)
  pub purpose : c.purpose ≡ string_of (get "purpose" b)
  pub grantee_id : c.grantee_id ≡ get "id" (get "grantee" b)
  pub public_key : c.public_key ≡ get "publicKey" (get "grantee" b)

-- What a body can lack.
pub data Lacks (b : Json) : Type 0 where
  lacks_field : IsShort required b → Lacks b
  lacks_license : license_class (get "licenseClass" b) ≡ none → Lacks b
  lacks_grantee : truthy (get "id" (get "grantee" b)) ≡ false → Lacks b
  bad_scope : IsBadScope (get "scope" b) → Lacks b

given-cases :
    (names : List String) (b : Json)
    → IsShort names b ⊎ All (λ name. truthy (get name b) ≡ true) names
given-cases [] b = inr tt
given-cases (name ∷ names) b = elim (Bool-cases (truthy (get name b))) [
  | inr absent ↦ inl (inl absent)
  | inl there ↦ elim (given-cases names b) [
    | inl short ↦ inl (inr short)
    | inr all ↦ inr (there, all)
  ]
]

has_texts-IsShort : (b : Json) → IsShort required b → has_texts b ≡ false
has_texts-IsShort b h = go _ _ _ _ _ h
  where
    go :
        (t p o r u : Bool)
        → (t ≡ false) ⊎ (p ≡ false) ⊎ (o ≡ false) ⊎ (r ≡ false) ⊎ (u ≡ false) ⊎ ⊥
        → (t && p && o && r && u) ≡ false
    go t p o r u h = ground (arith, h)

has_texts-given :
    (b : Json) → All (λ name. truthy (get name b) ≡ true) required → has_texts b ≡ true
has_texts-given b (t, (p, (o, (r, (u, _))))) = rw (t, p, o, r, u) refl

scope_of-cases :
    (v : Json)
    → ((scope_of v ≡ none) × IsBadScope v)
      ⊎ ((scope : Option GrantScope) × (scope_of v ≡ some scope) × IsScope v scope)
scope_of-cases undefined = inr (none, refl, refl)
scope_of-cases v = elim (Option-cases (grant_scope v)) [
  | inl unread ↦ inl (rw unread refl, unread)
  | inr (s, read) ↦ inr (some s, rw read refl, (s, read, refl))
]

params_of-IsComplete :
    (b : Json) (license : LicenseClass) (scope : Option GrantScope)
    → All (λ name. truthy (get name b) ≡ true) required
    → license_class (get "licenseClass" b) ≡ some license
    → truthy (get "id" (get "grantee" b)) ≡ true
    → IsScope (get "scope" b) scope
    → IsComplete b (params_of b license scope)
unfolding params_of
params_of-IsComplete b license scope given licensed granted scoped = record {
  given = given;
  grantee = granted;
  license = licensed;
  scope = scoped;
  transaction_id = refl;
  bpp_id = refl;
  bpp_uri = refl;
  offer_id = refl;
  resource_id = refl;
  purpose = refl;
  grantee_id = refl;
  public_key = refl;
}

-- A body is let through when it is complete, with what is taken of it.
check_confirm-cases :
    (b : Json)
    → ((detail : String) × (check_confirm b ≡ bad detail) × Lacks b)
      ⊎ ((c : Confirmation) × (check_confirm b ≡ good c) × IsComplete b c)
unfolding check_confirm
check_confirm-cases b = elim (given-cases required b) [
  | inl short ↦ inl (
    "transactionId, bppId, offerId, resourceId, purpose are required",
    rw (has_texts-IsShort b short, check_confirm) refl,
    lacks_field short,
  )
  | inr given ↦
      let texts = has_texts-given b given in
      elim (Option-cases (license_class (get "licenseClass" b))) [
        | inl unlicensed ↦ inl (
          "valid licenseClass is required",
          rw (texts, check_confirm) (rw (unlicensed, check_confirm) refl),
          lacks_license unlicensed,
        )
        | inr (license, licensed) ↦ elim (Bool-cases (truthy (get "id" (get "grantee" b)))) [
          | inr nobody ↦ inl (
            "grantee.id is required",
            rw (texts, check_confirm)
                (rw (licensed, check_confirm) (rw (nobody, check_confirm) refl)),
            lacks_grantee nobody,
          )
          | inl granted ↦ elim (scope_of-cases (get "scope" b)) [
            | inl (unscoped, unread) ↦ inl (
              "invalid scope",
              rw (texts, check_confirm)
                  (rw (licensed, check_confirm)
                    (rw (granted, check_confirm) (rw (unscoped, check_confirm) refl))),
              bad_scope unread,
            )
            | inr (scope, scoped, read) ↦ inr (
              params_of b license scope,
              rw (texts, check_confirm)
                  (rw (licensed, check_confirm)
                    (rw (granted, check_confirm) (rw (scoped, check_confirm) refl))),
              params_of-IsComplete b license scope given licensed granted read,
            )
          ]
        ]
      ]
]

module _ (config : BapConfig) (c : Confirmation) (bpp_id : String) where
  unknown_as :
      c.bpp_id ≡ bpp_id
      → find (λ p. p.bpp_id == bpp_id) config.bpps ≡ none
      → find (λ p. p.bpp_id == c.bpp_id) config.bpps ≡ none
  unknown_as same unknown = rw same unknown

  known_as :
      (target : BppEndpoint)
      → c.bpp_id ≡ bpp_id
      → find (λ p. p.bpp_id == bpp_id) config.bpps ≡ some target
      → find (λ p. p.bpp_id == c.bpp_id) config.bpps ≡ some target
  known_as target same known = rw same known

module _ (config : BapConfig) where
  -- POST /confirm replies 400 at once, with no collector opened, when its body lacks one of the five
  -- required properties, a license class, a grantee with an id or a scope that the schema reads if it
  -- gives one, or when no provider of its `bppId` is configured. Otherwise its body is complete, its
  -- texts, its grantee, license and scope are taken, and one collector is opened for one callback of its
  -- transaction.
  pub confirm_route-started :
      (body : Json) (s : Registry)
      → let b = nullish body (obj end) in
        ((error : Json) × (confirm_route config body s ≡ replied (answered 400 error))
          × (Lacks b ⊎ (find (λ p. p.bpp_id == string_of (get "bppId" b)) config.bpps ≡ none)))
        ⊎ ((c : Confirmation) × (target : BppEndpoint) × IsComplete b c
            × (find (λ p. p.bpp_id == string_of (get "bppId" b)) config.bpps ≡ some target)
            × (confirm_route config body s
                ≡ waiting c target (fan_out "confirm" (string_of (get "transactionId" b)) 1 s)))
  unfolding confirm_route start_confirm start_single resolve_bpp
  confirm_route-started body s =
      let b = nullish body (obj end) in
      elim (check_confirm-cases b) [
        | inl (detail, refused, lacks) ↦
            inl (error_json "bad-request" detail, rw (refused, confirm_route) refl, inl lacks)
        | inr (c, checked, complete) ↦
            elim (Option-cases
              (find (λ (p : BppEndpoint). p.bpp_id == string_of (get "bppId" b)) config.bpps)) [
                | inl unknown ↦ inl (
                  error_json "unknown-bpp" ("Unknown bppId: " <> c.bpp_id),
                  rw (checked, confirm_route)
                      (rw (unknown_as config c _ complete.bpp_id unknown, start_confirm) refl),
                  inr unknown,
                )
                | inr (target, known) ↦ inr (
                  c,
                  target,
                  complete,
                  known,
                  rw (checked, confirm_route)
                      (rw (known_as config c _ target complete.bpp_id known, start_confirm)
                        (rw (complete.transaction_id) refl)),
                )
              ]
      ]
