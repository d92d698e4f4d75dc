-- ===== src/Tests/Revocation.antt =====
-- The tool `revoke_grant` and the stores of the Access Manager, at concrete inputs.
use beckn_data_commons.Base.{false, ◌≡◌, ◌⊎◌, refl, Option, none, some, List, [], ◌∷◌}
use beckn_data_commons.Js.Map.{map_get}
use beckn_data_commons.Js.Text.{◌<>◌}
use beckn_data_commons.Json.{wire}
use beckn_data_commons.Http.{Request, Response}
use beckn_data_commons.AccessManager.Types.{GrantRecord}
use beckn_data_commons.AccessManager.Service.{record_of}
use beckn_data_commons.AccessManager.Stores.Memory
use beckn_data_commons.AccessManager.Stores.Memory.{memory_store, is_revoked}
use beckn_data_commons.AccessManager.Stores.Memory.Laws.{memory_store-IsGrantStore}
use beckn_data_commons.AccessManager.Stores.Postgres
use beckn_data_commons.AccessManager.Stores.Postgres.{postgres_store}
use beckn_data_commons.AccessManager.Stores.Ledger.Terminal.{
  Operation, saving, revoking, sweeping, apply_all,
}
use beckn_data_commons.AccessManager.Stores.Ledger.Refines.{ledger_after, answer}
use beckn_data_commons.AccessManager.Stores.Agree.{
  nothing_known, stores-ledger_after, memory_store-postgres_store,
}
use beckn_data_commons.AccessManager.App.{Reply, answered, thrown, post_revoke}
use beckn_data_commons.AccessManager.App.Guarded.{code_of}
use beckn_data_commons.Mcp.Gateway.{revoked_result}
use beckn_data_commons.Mcp.Replies.{fail, revoked_reply}
use beckn_data_commons.Mcp.Tools.Revoked.{
  reason, IsRevokedIn, tool, revoke_grant-post_revoke, revoke_grant-failed,
}
use beckn_data_commons.Tests.Data.{lease}
use beckn_data_commons.Tests.Tools.{shown, config}

abbrev row : GrantRecord
row = record_of lease (record { claims = lease; signature = "" })

abbrev history : List Operation
history = saving row ∷ revoking "g-1" "withdrawn" ∷ sweeping 9000 ∷ []

stores-ledger_after_example :
    (Memory.get "g-1" (apply_all memory_store history Memory.empty)
      ≡ ledger_after history nothing_known "g-1")
    × ((Memory.revoke "g-1" "again" (apply_all memory_store history Memory.empty)).0
        ≡ answer (ledger_after history nothing_known "g-1"))
    × (Postgres.get "g-1" (apply_all postgres_store history Postgres.empty)
        ≡ ledger_after history nothing_known "g-1")
    × ((Postgres.revoke "g-1" "again" (apply_all postgres_store history Postgres.empty)).0
        ≡ answer (ledger_after history nothing_known "g-1"))
stores-ledger_after_example = stores-ledger_after history "g-1" "again" (refl, (tt, (tt, tt)))

memory_store-postgres_store_example :
    (Memory.get "g-1" (apply_all memory_store history Memory.empty)
      ≡ Postgres.get "g-1" (apply_all postgres_store history Postgres.empty))
    × ((Memory.revoke "g-1" "again" (apply_all memory_store history Memory.empty)).0
        ≡ (Postgres.revoke "g-1" "again" (apply_all postgres_store history Postgres.empty)).0)
memory_store-postgres_store_example =
    memory_store-postgres_store history "g-1" "again" (refl, (tt, (tt, tt)))

-- the response that carries a reply
abbrev pub response_of : Reply → Response
response_of (answered code body) = record {
  status = code;
  status_text = "";
  json = some (wire body);
  text = "";
  content_type = some "application/json";
  content_disposition = none;
}
response_of thrown = record {
  status = 500;
  status_text = "Internal Server Error";
  json = none;
  text = "";
  content_type = none;
  content_disposition = none;
}

status-response_of : (r : Reply) → (response_of r).status ≡ code_of r
status-response_of (answered code body) = refl
status-response_of thrown = refl

-- a network that hands every request to the route for the grant "g-1"
abbrev manager_route : Memory.Grants → Reply × Memory.Grants
manager_route s = post_revoke memory_store "g-1" (some reason) s

abbrev to_manager : Request → Memory.Grants → Option Response × Memory.Grants
to_manager req s = (some (response_of (manager_route s).0), (manager_route s).1)

abbrev one_grant : Memory.Grants
one_grant = ("g-1", row) ∷ []

revoke_grant-post_revoke_example :
    ((memory_store.get "g-1" one_grant ≡ none)
      × ((tool memory_store memory_store-IsGrantStore to_manager "http://bap" "http://am" shown
            config "g-1" one_grant).0
          ≡ some (fail ("Grant " <> "g-1" <> " not found."))))
    ⊎ (IsRevokedIn memory_store "g-1"
          (tool memory_store memory_store-IsGrantStore to_manager "http://bap" "http://am" shown
            config "g-1" one_grant).1
        × ((tool memory_store memory_store-IsGrantStore to_manager "http://bap" "http://am" shown
              config "g-1" one_grant).0
            ≡ some
                (revoked_reply "g-1" (revoked_result (response_of (manager_route one_grant).0)))))
revoke_grant-post_revoke_example =
    revoke_grant-post_revoke memory_store memory_store-IsGrantStore to_manager "http://bap"
      "http://am" shown config "g-1" (response_of (manager_route one_grant).0) one_grant refl
      (status-response_of (manager_route one_grant).0) refl

-- a network on which the Access Manager cannot be reached
abbrev unavailable : Request → Memory.Grants → Option Response × Memory.Grants
unavailable req s = (some (response_of thrown), s)

row-held : memory_store.get "g-1" one_grant ≡ some row
unfolding Memory.get map_get
row-held = refl

row-stands : is_revoked row.status ≡ false
unfolding record_of
row-stands = refl

revoke_grant-failed_example :
    ((tool memory_store memory_store-IsGrantStore unavailable "http://bap" "http://am" shown config
        "g-1" one_grant).0
      ≡ some (revoked_reply "g-1" (revoked_result (response_of thrown))))
    × (memory_store.get "g-1"
          (tool memory_store memory_store-IsGrantStore unavailable "http://bap" "http://am" shown
            config "g-1" one_grant).1
        ≡ some row)
revoke_grant-failed_example =
    revoke_grant-failed memory_store memory_store-IsGrantStore unavailable "http://bap" "http://am"
      shown config "g-1" (response_of thrown) row one_grant row-held row-stands refl refl
