-- ===== src/Mcp/Tools/Revoked.antt =====
-- The tool `revoke_grant`, from the client to the Access Manager.
use beckn_data_commons.Base.{
  String, true, false, ◌≡◌, ◌⊎◌, inl, inr, refl, ◌∙◌, ap, Option, none, some, eqb, or_else,
  Option-cases, Bool-cases, eq_refl, if◌then◌else◌,
}
use beckn_data_commons.Js.Text.{◌<>◌}
use beckn_data_commons.AccessManager.Types.{
  GrantRecord, RevokeOutcome, now_revoked, not_found, already_revoked, GrantStore,
}
use beckn_data_commons.AccessManager.Stores.Memory.{is_revoked}
use beckn_data_commons.AccessManager.Stores.Ledger.{IsGrantStore, revoked_record}
use beckn_data_commons.AccessManager.App.{post_revoke}
use beckn_data_commons.AccessManager.App.Guarded.{code_of, revoke_code, post_revoke-code}
use beckn_data_commons.Mcp.Gateway
use beckn_data_commons.Http.{Request, Response}
use beckn_data_commons.Mcp.Gateway.{revoked_result, revoke_request, http_gateway}
use beckn_data_commons.Mcp.Replies.{Shown, ToolResult, fail, revoked_reply}
use beckn_data_commons.Mcp.Tools.{McpConfig, revoke_grant}

abbrev pub reason : String
reason = "revoked via MCP by grantee"

-- The store holds the grant, and it is revoked.
abbrev pub IsRevokedIn : {S : Type 0} → GrantStore S → String → S → Type 0
IsRevokedIn store grant_id s =
    (r : GrantRecord) × (store.get grant_id s ≡ some r) × (is_revoked r.status ≡ true)

RevokeOutcome-cases :
    (o : RevokeOutcome) → (o ≡ not_found) ⊎ ((o ≡ already_revoked) ⊎ (o ≡ now_revoked))
RevokeOutcome-cases not_found = inl refl
RevokeOutcome-cases already_revoked = inr (inl refl)
RevokeOutcome-cases now_revoked = inr (inr refl)

module _ {S : Type 0} (store : GrantStore S) where
  -- the route leaves what the store's own operation leaves
  post_revoke-state :
      (grant_id : String) (why : Option String) (s : S)
      → (post_revoke store grant_id why s).1
        ≡ (store.revoke grant_id (or_else why "unspecified") s).1
  unfolding post_revoke
  post_revoke-state grant_id why s =
      elim (RevokeOutcome-cases (store.revoke grant_id (or_else why "unspecified") s).0) [
        | inl absent ↦ rw (absent, post_revoke) refl
        | inr (inl old) ↦ rw (old, post_revoke) refl
        | inr (inr new) ↦ rw (new, post_revoke) refl
      ]

  module _ (laws : IsGrantStore store) where
    post_revoke-IsRevokedIn :
        (grant_id : String) (why : Option String) (r : GrantRecord) (s : S)
        → store.get grant_id s ≡ some r
        → IsRevokedIn store grant_id (post_revoke store grant_id why s).1
    post_revoke-IsRevokedIn grant_id why r s found = (
      revoked_record r,
      rw (post_revoke-state grant_id why s) (
          laws.after_revoke grant_id (or_else why "unspecified") grant_id s
          ∙ rw (eq_refl grant_id, found) refl),
      refl,
    )

    module _ (fetch : Request → S → Option Response × S) (bap_url am_url : String) (shown : Shown)
        (config : McpConfig) where
      -- the request, and the tool
      abbrev pub called : String → S → Option Response × S
      called grant_id s = fetch (revoke_request fetch bap_url am_url grant_id reason) s

      abbrev pub tool : String → S → Option ToolResult × S
      tool grant_id s = revoke_grant (http_gateway fetch bap_url am_url) shown config grant_id s

      revoke_grant-status :
          (grant_id : String) (res : Response) (s : S)
          → (fetch (revoke_request fetch bap_url am_url grant_id reason) s).0 ≡ some res
          → revoke_grant (http_gateway fetch bap_url am_url) shown config grant_id s ≡ (
            some (
                if eqb res.status 404
                then fail ("Grant " <> grant_id <> " not found.")
                else revoked_reply grant_id (revoked_result res)),
            (fetch (revoke_request fetch bap_url am_url grant_id reason) s).1,
          )
      unfolding revoke_grant Gateway.revoke_grant
      revoke_grant-status grant_id res s answered =
          rw (answered, Gateway.revoke_grant, revoke_grant)
            (elim (Bool-cases (eqb res.status 404)) [
              | inl missing ↦ rw missing refl
              | inr other ↦ rw other refl
            ])

      -- When the Access Manager's route answers the request, the tool says that the grant is not found
      -- exactly when the store does not have it; otherwise the grant is revoked in the store that is
      -- left, and the tool says so.
      pub revoke_grant-post_revoke :
          (grant_id : String) (res : Response) (s : S)
          → (called grant_id s).0 ≡ some res
          → res.status ≡ code_of (post_revoke store grant_id (some reason) s).0
          → (called grant_id s).1 ≡ (post_revoke store grant_id (some reason) s).1
          → ((store.get grant_id s ≡ none)
              × ((tool grant_id s).0 ≡ some (fail ("Grant " <> grant_id <> " not found."))))
            ⊎ (IsRevokedIn store grant_id (tool grant_id s).1
                × ((tool grant_id s).0 ≡ some (revoked_reply grant_id (revoked_result res))))
      revoke_grant-post_revoke grant_id res s answered coded routed =
          let status = coded ∙ post_revoke-code store grant_id (some reason) s laws in
          let said = revoke_grant-status grant_id res s answered in
          elim (Option-cases (store.get grant_id s)) [
            | inl absent ↦
                let missing : res.status ≡ 404 = status ∙ ap revoke_code absent in
                inl (absent, rw said (rw missing refl))
            | inr (r, found) ↦
                let other : eqb res.status 404 ≡ false =
                  rw (status, found)
                    (elim (Bool-cases (is_revoked r.status)) [
                      | inl old ↦ rw old refl
                      | inr new ↦ rw new refl
                    ]) in
                inr (
                  rw said (
                    rw routed (post_revoke-IsRevokedIn grant_id (some reason) r s found),
                    rw other refl,
                  ))
          ]

      -- A revocation that fails with any status but 404, and changes nothing, is reported as done: the
      -- grant still stands in the store, and the tool answers without an error.
      pub revoke_grant-failed :
          (grant_id : String) (res : Response) (r : GrantRecord) (s : S)
          → store.get grant_id s ≡ some r
          → is_revoked r.status ≡ false
          → called grant_id s ≡ (some res, s)
          → eqb res.status 404 ≡ false
          → ((tool grant_id s).0 ≡ some (revoked_reply grant_id (revoked_result res)))
            × (store.get grant_id (tool grant_id s).1 ≡ some r)
      revoke_grant-failed grant_id res r s found stands answered other =
          let said =
            revoke_grant-status grant_id res s (ap (λ (c : Option Response × S). c.0) answered) in
          rw said (rw other refl, rw answered found)
