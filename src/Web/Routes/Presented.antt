-- ===== src/Web/Routes/Presented.antt =====
-- The routes that confirm and that download, on every branch.
use beckn_data_commons.Base.{
  String, true, false, ◌==◌, Option, none, some, List, [], ◌∷◌, ◌≡◌, refl, ◌⊎◌, inl, inr,
  Bool-cases, All,
}
use beckn_data_commons.Js.{Number}
use beckn_data_commons.Js.Text.{◌<>◌}
use beckn_data_commons.Json.{Json, get}
use beckn_data_commons.Zod.{Zod, string}
use beckn_data_commons.Auth.Header.{present}
use beckn_data_commons.Http.{Request, Response}
use beckn_data_commons.Grant.Types.{SignedAccessGrant, signed_json}
use beckn_data_commons.Grant.Parse.{parse_signed_grant}
use beckn_data_commons.Bpp.Download.Presented.{parse_presented_grant}
use beckn_data_commons.Consent.Presented.{parse_presented_grant-encode_grant_header}
use beckn_data_commons.Web.Client.{Outcome, Url, rewrite_access_url}
use beckn_data_commons.Web.Client
use beckn_data_commons.Web.Routes.{
  bad_download, result_reply, error_reply, has_text, required, missing, params_of, confirmed_reply,
  download_route, confirm_route,
}

-- what `missing` answers
missing-cases :
    (names : List String) (b : Json)
    → ((name : String) × (missing names b ≡ some name) × (has_text (get name b) ≡ false))
      ⊎ ((missing names b ≡ none) × All (λ name. has_text (get name b) ≡ true) names)
unfolding missing
missing-cases [] b = inr (refl, tt)
missing-cases (name ∷ names) b = elim (Bool-cases (has_text (get name b))) [
  | inl there ↦ elim (missing-cases names b) [
    | inl (other, e, lacks) ↦ inl (other, rw there e, lacks)
    | inr (e, all) ↦ inr (rw there e, (there, all))
  ]
  | inr lacks ↦ inl (name, rw lacks refl, lacks)
]

present-cases :
    (o : Option String)
    → (present o ≡ none)
      ⊎ ((s : String) × (o ≡ some s) × ((s == "") ≡ false) × (present o ≡ some s))
present-cases none = inl refl
present-cases (some t) = elim (Bool-cases (t == "")) [
  | inl empty ↦ inl (rw empty refl)
  | inr given ↦ inr (t, refl, given, rw given refl)
]

option-cases {ℓ} : {A : Type ℓ} (o : Option A) → (o ≡ none) ⊎ ((a : A) × (o ≡ some a))
option-cases none = inl refl
option-cases (some a) = inr (a, refl)

signed-cases :
    (zod : Zod) (v : Json)
    → (parse_signed_grant zod v ≡ none)
      ⊎ ((g : SignedAccessGrant) × (parse_signed_grant zod v ≡ some g))
signed-cases zod v = option-cases (parse_signed_grant zod v)

module _ {N : Type 0} (fetch : Request → N → Option Response × N) (parse_url : String → Option Url)
    (zod : Zod) (unreachable type_error : String) (bap_url am_url : String)
    (download_rewrite : Option String) where
  -- POST /api/confirm answers 400 with the first required field that has no text, and calls nobody; or
  -- all of them have one, and it answers what comes of one call of the platform.
  pub confirm_route-checked :
      (b : Json) (n : N)
      → ((name : String) × (has_text (get name b) ≡ false)
          × (confirm_route fetch parse_url zod unreachable type_error bap_url am_url
                download_rewrite b n
              ≡ (error_reply 400 "bad-request" (name <> " is required"), n)))
        ⊎ (All (λ name. has_text (get name b) ≡ true) required
            × (confirm_route fetch parse_url zod unreachable type_error bap_url am_url
                  download_rewrite b n
                ≡ (let r = Client.confirm fetch unreachable bap_url am_url (params_of b) n in
                    (confirmed_reply type_error r.0, r.1))))
  unfolding confirm_route
  confirm_route-checked b n = elim (missing-cases required b) [
    | inl (name, e, lacks) ↦ inl (name, lacks, rw (e, confirm_route) refl)
    | inr (e, all) ↦ inr (all, rw (e, confirm_route) refl)
  ]

  -- POST /api/download calls nobody and answers 400, when its body has no grant that meets the schema or
  -- no address; or its body has a grant that meets the schema and an
  -- address, and it answers what comes of one GET, of that address as it is rewritten; the header of
  -- this call the provider reads as that grant.
  pub download_route-presented :
      (other : String → Number) (body : Json) (n : N)
      → (((parse_signed_grant zod (get "grant" body) ≡ none)
            ⊎ (present (string (get "accessUrl" body)) ≡ none))
          × (download_route fetch parse_url zod unreachable type_error bap_url am_url
                download_rewrite body n
              ≡ (bad_download, n)))
        ⊎ ((g : SignedAccessGrant) × (access_url : String) × (req : Request) × (parse_signed_grant
                zod
                (get "grant" body)
              ≡ some g)
            × (string (get "accessUrl" body) ≡ some access_url)
            × ((access_url == "") ≡ false)
            × (download_route fetch parse_url zod unreachable type_error bap_url am_url
                  download_rewrite body n
                ≡ (let r =
                      Client.answer_of fetch unreachable bap_url am_url
                        (λ res. Client.done (Client.download_result res))
                        (fetch req n) in
                    (result_reply r.0, r.1)))
            × (req.method ≡ "GET")
            × (req.url ≡ rewrite_access_url parse_url download_rewrite access_url)
            × (req.body ≡ none)
            × (parse_presented_grant other req.authorization ≡ signed_json g))
  unfolding download_route Client.download
  download_route-presented other body n = elim (signed-cases zod (get "grant" body)) [
    | inl bad ↦ inl (inl bad, rw (bad, download_route) refl)
    | inr (g, e) ↦ elim (present-cases (string (get "accessUrl" body))) [
      | inl bad ↦ inl (inr bad, rw (e, bad, download_route) refl)
      | inr (url, there, given, e') ↦ inr (
        g,
        url,
        Client.download_request fetch unreachable bap_url am_url
            (rewrite_access_url parse_url download_rewrite url) (signed_json g),
        e,
        there,
        given,
        rw (e, e', download_route) refl,
        refl,
        refl,
        refl,
        parse_presented_grant-encode_grant_header other g,
      )
    ]
  ]
