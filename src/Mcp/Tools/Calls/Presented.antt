-- ===== src/Mcp/Tools/Calls/Presented.antt =====
-- Which grants the tools present to a provider.
use beckn_data_commons.Base.{
  String, ◌==◌, ◌≡◌, refl, ◌⊎◌, inl, inr, some, List, [], ◌∷◌, All, Ensures, Option-cases,
  Bool-cases, Ensures-some, Ensures-none,
}
use beckn_data_commons.Js.Map.{map_get, map_set, map_values}
use beckn_data_commons.Json.{Json, get}
use beckn_data_commons.Zod.{string}
use beckn_data_commons.Auth.Header.{present}
use beckn_data_commons.Mcp.Session.{
  OfferRef, GrantRef, BdcSession, get_offer, record_search, record_grant, get_grant, latest_of,
  latest_grant_for_offer,
}
use beckn_data_commons.Bap.Orchestrator.Journey.{ConfirmParams}
use beckn_data_commons.Mcp.Gateway.{ConfirmResponse, BdcGateway}
use beckn_data_commons.Mcp.Replies.{Shown, no_grant}
use beckn_data_commons.Mcp.Tools.{
  McpConfig, FileSystem, SearchArgs, ConfirmArgs, DownloadArgs, grant_ref, intent_of, is_nullish,
  new_grant_ref, confirm_params, search_resources, negotiate, request_access, record_confirmed,
  confirm_access, fetch_file, download,
}
use beckn_data_commons.Mcp.Tools.Calls.{
  ToolCall, searching, viewing, requesting, revoking, confirming, listing, downloading, World,
  call_tool, call_all,
}

-- what is known of the grants of a session
abbrev pub AllGrants : (Json → Type 0) → BdcSession → Type 0
AllGrants Trusted s = All (λ g. Trusted g.signed_grant) (map_values s.grants)

module _ {V : Type 0} (Q : V → Type 0) where
  All-map_set :
      (key : String) (v : V) (m : List (String × V))
      → Q v
      → All Q (map_values m)
      → All Q (map_values (map_set key v m))
  unfolding map_values map_set
  All-map_set key v [] q all = (q, tt)
  All-map_set key v ((k, w) ∷ m) q (first, rest) = elim (Bool-cases (k == key)) [
    | inl same ↦ rw same (q, rest)
    | inr other ↦ rw other (first, All-map_set key v m q rest)
  ]

  map_get-Ensures :
      (key : String) (m : List (String × V)) → All Q (map_values m) → Ensures Q (map_get key m)
  unfolding map_values map_get
  map_get-Ensures key [] all = Ensures-none Q
  map_get-Ensures key ((k, w) ∷ m) (first, rest) = elim (Bool-cases (k == key)) [
    | inl same ↦ rw same (Ensures-some Q w first)
    | inr other ↦ rw other (map_get-Ensures key m rest)
  ]

latest_of-Ensures :
    (Q : GrantRef → Type 0) (offer_id : String) (gs : List GrantRef)
    → All Q gs
    → Ensures Q (latest_of offer_id gs)
unfolding latest_of
latest_of-Ensures Q offer_id [] all = Ensures-none Q
latest_of-Ensures Q offer_id (g ∷ gs) (first, rest) = elim (Option-cases (latest_of offer_id gs)) [
  | inl none_later ↦ rw none_later (elim (Bool-cases (g.offer_id == offer_id)) [
    | inl same ↦ rw same (Ensures-some Q g first)
    | inr other ↦ rw other (Ensures-none Q)
  ])
  | inr (h, later) ↦ rw later (Ensures-some Q h ((latest_of-Ensures Q offer_id gs rest).at h later))
]

grant_ref-Ensures :
    (Q : GrantRef → Type 0) (args : DownloadArgs) (s : BdcSession)
    → All Q (map_values s.grants)
    → Ensures Q (grant_ref args s)
unfolding grant_ref get_grant latest_grant_for_offer
grant_ref-Ensures Q args s all = elim (Option-cases (present args.grant_id)) [
  | inr (grant_id, given) ↦ rw (given, grant_ref) (map_get-Ensures Q grant_id s.grants all)
  | inl absent ↦ elim (Option-cases (present args.offer_id)) [
    | inr (offer_id, given) ↦
        rw (absent, grant_ref)
          (rw (given, grant_ref) (latest_of-Ensures Q offer_id (map_values s.grants) all))
    | inl absent' ↦ rw (absent, grant_ref) (rw (absent', grant_ref) (Ensures-none Q))
  ]
]

module _ {N F : Type 0} (gateway : BdcGateway N) (shown : Shown) (config : McpConfig)
    (files : FileSystem F) (Trusted : Json → Type 0)
    (answers : (p : ConfirmParams) (n : N)
      → Ensures (λ c. Trusted c.grant) (gateway.confirm p n).0) where
  negotiate-session :
      (o : OfferRef) (offer_id transaction_id : String) (s : BdcSession) (n : N)
      → (negotiate gateway shown config o offer_id transaction_id s n).1 ≡ s
  unfolding negotiate
  negotiate-session o offer_id transaction_id s n =
      elim (Option-cases (gateway.select transaction_id o.bpp_id offer_id n).0) [
        | inl failed ↦ rw (failed, negotiate) refl
        | inr (draft, answered) ↦
            rw (answered, negotiate)
              (elim (Option-cases
                (gateway.init transaction_id o.bpp_id offer_id
                  (gateway.select transaction_id o.bpp_id offer_id n).1).0) [
                    | inl failed ↦ rw (failed, negotiate) refl
                    | inr (active, answered') ↦ rw (answered', negotiate) refl
                  ])
      ]

  request_access-session :
      (offer_id : String) (s : BdcSession) (n : N)
      → (request_access gateway shown config offer_id s n).1 ≡ s
  unfolding request_access
  request_access-session offer_id s n = elim (Option-cases (get_offer offer_id s)) [
    | inl unknown ↦ rw (unknown, request_access) refl
    | inr (o, known) ↦ elim (Option-cases (present s.last_transaction_id)) [
      | inl never ↦ rw (known, request_access) (rw (never, request_access) refl)
      | inr (t, searched) ↦
          rw (known, request_access)
            (rw (searched, request_access) (negotiate-session o offer_id t s n))
    ]
  ]

  record_confirmed-AllGrants :
      (o : OfferRef) (offer_id : String) (c : ConfirmResponse) (s : BdcSession) (n : N)
      → Trusted c.grant
      → AllGrants Trusted s
      → AllGrants Trusted (record_confirmed gateway shown config o offer_id c s n).1
  unfolding record_confirmed record_grant new_grant_ref
  record_confirmed-AllGrants o offer_id c s n good all = elim (Bool-cases (is_nullish c.contract)) [
    | inl bare ↦ rw bare all
    | inr contracted ↦
        rw contracted (elim (Option-cases (string (get "grantId" (get "claims" c.grant)))) [
          | inl unnamed ↦ rw (unnamed, record_confirmed) all
          | inr (grant_id, named) ↦
              rw (named, record_confirmed)
                (All-map_set (λ g. Trusted g.signed_grant) grant_id
                  (new_grant_ref o offer_id grant_id c) s.grants good all)
        ])
  ]

  confirm_access-AllGrants :
      (args : ConfirmArgs) (s : BdcSession) (n : N)
      → AllGrants Trusted s
      → AllGrants Trusted (confirm_access gateway shown config args s n).1
  unfolding confirm_access
  confirm_access-AllGrants args s n all = elim (Option-cases (get_offer args.offer_id s)) [
    | inl unknown ↦ rw (unknown, confirm_access) all
    | inr (o, known) ↦ elim (Option-cases (present s.last_transaction_id)) [
      | inl never ↦ rw (known, confirm_access) (rw (never, confirm_access) all)
      | inr (t, searched) ↦ elim (Option-cases o.license) [
        | inl none_known ↦
            rw (known, confirm_access)
              (rw (searched, confirm_access) (rw (none_known, confirm_access) all))
        | inr (license, licensed) ↦
            let asked = confirm_params config args o license t in
            rw (known, confirm_access)
              (rw (searched, confirm_access)
                (rw (licensed, confirm_access)
                  (elim (Option-cases (gateway.confirm asked n).0) [
                    | inl failed ↦ rw (failed, confirm_access) all
                    | inr (c, answered) ↦
                        rw (answered, confirm_access)
                          (record_confirmed-AllGrants o args.offer_id c s
                            (gateway.confirm asked n).1 ((answers asked n).at c answered) all)
                  ])))
      ]
    ]
  ]

  search_resources-AllGrants :
      (args : SearchArgs) (s : BdcSession) (n : N)
      → AllGrants Trusted s
      → AllGrants Trusted (search_resources gateway shown config args s n).1
  unfolding search_resources record_search
  search_resources-AllGrants args s n all =
      elim (Option-cases (gateway.search (intent_of args) args.purpose n).0) [
        | inl failed ↦ rw (failed, search_resources) all
        | inr (found, answered) ↦ rw (answered, search_resources) all
      ]

  call_tool-AllGrants :
      (call : ToolCall) (w : World N F)
      → AllGrants Trusted w.0
      → AllGrants Trusted (call_tool gateway shown config files call w).1.0
  unfolding call_tool
  call_tool-AllGrants (searching args) (s, n, f) all = search_resources-AllGrants args s n all
  call_tool-AllGrants (viewing offer_id) (s, n, f) all = all
  call_tool-AllGrants (requesting offer_id) (s, n, f) all =
      rw (request_access-session offer_id s n) all
  call_tool-AllGrants (revoking grant_id) (s, n, f) all = all
  call_tool-AllGrants (confirming args) (s, n, f) all = confirm_access-AllGrants args s n all
  call_tool-AllGrants listing (s, n, f) all = all
  call_tool-AllGrants (downloading args) (s, n, f) all = all

  call_all-AllGrants :
      (calls : List ToolCall) (w : World N F)
      → AllGrants Trusted w.0
      → AllGrants Trusted (call_all gateway shown config files calls w).0
  unfolding call_all
  call_all-AllGrants [] w all = all
  call_all-AllGrants (call ∷ calls) w all =
      call_all-AllGrants calls (call_tool gateway shown config files call w).1
        (call_tool-AllGrants call w all)

  -- Whatever tools are called from a session without grants: `download` then answers that there is no
  -- grant, and touches neither the network nor the files, or it presents a grant that the platform has
  -- answered a confirmation with. `Trusted` is any property of all grants of those answers.
  pub download-call_all :
      (calls : List ToolCall) (args : DownloadArgs) (w : World N F)
      → map_values w.0.grants ≡ []
      → (let (s, n, f) = call_all gateway shown config files calls w in
          let result = download gateway shown config files args s n f in
          (result ≡ (some no_grant, n, f))
          ⊎ ((ref : GrantRef) × Trusted ref.signed_grant
              × (result ≡ fetch_file gateway shown config files ref n f)))
  unfolding download
  download-call_all calls args w bare =
      let (s, n, f) = call_all gateway shown config files calls w in
      let all = call_all-AllGrants calls w (rw bare tt) in
      elim (Option-cases (grant_ref args s)) [
        | inl absent ↦ rw (absent, download) (inl refl)
        | inr (ref, held) ↦
            rw (held, download)
              (inr (
                ref,
                (grant_ref-Ensures (λ g. Trusted g.signed_grant) args s all).at ref held,
                refl,
              ))
      ]
