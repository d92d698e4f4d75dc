-- ===== src/Tests/Provider.antt =====
-- A provider and the database that it shares with the Access Manager, at concrete inputs.
use beckn_data_commons.Base.{
  true, false, ◌≡◌, ◌≢◌, ◌↔◌, ◌≤◌, ◌-◌, refl, arith, some, List, [], ◌∷◌, eq_iff,
}
use beckn_data_commons.Js.Map.{map_get}
use beckn_data_commons.Json.{Json, null}
use beckn_data_commons.Grant.Types.{SignedAccessGrant, signed_json}
use beckn_data_commons.Zod.{strict}
use beckn_data_commons.Grant.Parse.{parse_signed_grant}
use beckn_data_commons.Grant.Verify.{malformed, verify_grant}
use beckn_data_commons.AccessManager.Types.{revoked, GrantRecord, RevokeOutcome, not_found}
use beckn_data_commons.AccessManager.Service.{claims_for, record_of, issue}
use beckn_data_commons.AccessManager.Stores.Memory
use beckn_data_commons.AccessManager.Stores.Memory.{memory_store, is_revoked}
use beckn_data_commons.AccessManager.Stores.Memory.Laws.{memory_store-IsGrantStore}
use beckn_data_commons.AccessManager.Stores.Postgres
use beckn_data_commons.AccessManager.Stores.Postgres.{
  Tables, postgres_store, row_of, insert_row, set_revoked, has_revocation, insert_revocation,
}
use beckn_data_commons.AccessManager.Stores.Postgres.Shared.{apply_all-listed}
use beckn_data_commons.AccessManager.Stores.Ledger.Terminal.{
  Operation, saving, revoking, sweeping, apply, apply_all, revoke-apply_all,
}
use beckn_data_commons.Bpp.Stores.{
  memory_revocations, memory_redemptions, memory_is_revoked, memory_get_count,
  memory_record_redemption, postgres_revocations, postgres_redemptions,
}
use beckn_data_commons.Bpp.Stores.Laws.{
  memory_redemptions-IsRedemptionStore, memory_revocations-IsRevocationStore,
}
use beckn_data_commons.Bpp.Download.{
  ResolvedFile, RedeemParams, offline, refused, served, check_offline, redeem_grant,
}
use beckn_data_commons.Bpp.Download.Served.{MayDownload, redeem_grant-served_iff}
use beckn_data_commons.Bpp.Download.Ledger.{Event, presented, run, is_of, is_capped_of, number_of}
use beckn_data_commons.Bpp.Download.Ledger.Limits.{run-cap, run-revoked, redeem_grant-refused_keeps}
use beckn_data_commons.Consent.{revoke-run, issue-redeem_grant}
use beckn_data_commons.Tests.Noble.{toy, toy-IsNoble}
use beckn_data_commons.Tests.Data.{plain_zod, am_key, am_key-derived, lease}
use beckn_data_commons.Tests.Manager.{
  request, request-RequestIsValid, manager, ids-IdsAreValid, claims-Authorizes,
}

abbrev pub census : ResolvedFile
census = record { path = "/data/census.csv"; filename = "census.csv"; content_type = "text/csv" }

abbrev pub presenting : Json → RedeemParams
presenting grant = record {
  signed_grant = grant;
  requested = record {
    resource_id = "census";
    offer_id = some "offer-1";
    fields = some ("age" ∷ []);
  };
  bpp_id = "bpp";
  access_manager_public_key = am_key;
  now_seconds = 1200;
  clock_skew_seconds = 30;
  resolve_file = λ resource offer kind. some census;
}

pub am_key-ne-empty : am_key ≢ ""
am_key-ne-empty e = cc ((eq_iff am_key "").1 e)

pub not_revoked : memory_is_revoked "g-1" [] ≡ false
unfolding memory_is_revoked map_get
not_revoked = refl

pub first_count : (memory_record_redemption "g-1" []).0 ≤ 2
unfolding memory_record_redemption map_get
first_count = omega arith

claims-available : some census ≡ some census
claims-available = refl

issue-redeem_grant_example :
    (g : SignedAccessGrant) × (issue toy plain_zod memory_store manager request 1000 "g-1" "n-1"
        Memory.empty
      ≡ some
          (g, Memory.save (record_of (claims_for manager request 1000 "g-1" "n-1") g) Memory.empty))
    × ((redeem_grant memory_revocations memory_redemptions toy plain_zod
          (presenting (signed_json g))
          []
          []).0
        ≡ served
            (claims_for manager request 1000 "g-1" "n-1")
            census
            (memory_record_redemption "g-1" []).0)
issue-redeem_grant_example =
    issue-redeem_grant toy plain_zod memory_store memory_revocations memory_redemptions manager
      request 1000 "g-1" "n-1" Memory.empty (presenting null) [] [] census toy-IsNoble
      am_key-derived am_key-ne-empty request-RequestIsValid ids-IdsAreValid claims-Authorizes
      not_revoked refl first_count

-- the grant that was issued
abbrev pub held : SignedAccessGrant
held =
    let (g, _, _) =
      issue-redeem_grant toy plain_zod memory_store memory_revocations memory_redemptions manager
        request 1000 "g-1" "n-1" Memory.empty (presenting null) [] [] census toy-IsNoble
        am_key-derived am_key-ne-empty request-RequestIsValid ids-IdsAreValid claims-Authorizes
        not_revoked refl first_count in
    g

redeem_grant-served_iff_example :
    ((redeem_grant memory_revocations memory_redemptions toy plain_zod
        (presenting (signed_json held))
        []
        []).0
      ≡ served lease census 1)
    ↔ MayDownload memory_revocations memory_redemptions toy plain_zod
        (presenting (signed_json held))
        []
        []
        lease
        census
        1
redeem_grant-served_iff_example =
    redeem_grant-served_iff memory_revocations memory_redemptions toy plain_zod
      (presenting (signed_json held)) [] [] lease census 1

abbrev three_times : List Event
three_times =
    presented (presenting (signed_json held))
    ∷ presented (presenting (signed_json held))
    ∷ presented (presenting (signed_json held))
    ∷ []

run-cap_example :
    number_of
      (is_capped_of "g-1" 2)
      (run memory_revocations memory_redemptions toy plain_zod three_times [] [])
    ≤ 2 - memory_get_count "g-1" []
run-cap_example =
    run-cap memory_revocations memory_redemptions toy plain_zod memory_redemptions-IsRedemptionStore
      "g-1" 2 three_times [] []

revoked_before : memory_is_revoked "g-1" (("g-1", "withdrawn") ∷ []) ≡ true
unfolding memory_is_revoked map_get
revoked_before = refl

run-revoked_example :
    number_of (is_of "g-1") (
      run memory_revocations memory_redemptions toy plain_zod three_times
        (("g-1", "withdrawn") ∷ [])
        [])
    ≡ 0
run-revoked_example =
    run-revoked memory_revocations memory_redemptions toy plain_zod
      memory_revocations-IsRevocationStore "g-1" three_times (("g-1", "withdrawn") ∷ []) []
      revoked_before

abbrev row : GrantRecord
row = record_of lease (record { claims = lease; signature = "" })

abbrev one_grant : List Operation
one_grant = saving row ∷ sweeping 1100 ∷ []

row-known :
    (Postgres.revoke "g-1" "withdrawn" (apply_all postgres_store one_grant Postgres.empty)).0
    ≢ not_found
unfolding apply_all apply Postgres.save insert_row Postgres.mark_expired Postgres.expire_rows
    Postgres.revoke row_of record_of
row-known e = cc

row-issued : is_revoked row.status ≡ false
unfolding record_of
row-issued = refl

revoke-run_example :
    number_of (is_of "g-1") (
      run postgres_revocations postgres_redemptions toy plain_zod three_times
        (Postgres.revoke "g-1" "withdrawn"
          (apply_all postgres_store one_grant Postgres.empty)).1.grant_revocations
        [])
    ≡ 0
revoke-run_example =
    revoke-run postgres_redemptions toy plain_zod one_grant "g-1" "withdrawn" three_times []
      (row-issued, (tt, tt)) row-known

abbrev revoked_row : GrantRecord
revoked_row = record row { status = revoked }

abbrev saved_and_revoked : List Operation
saved_and_revoked = saving row ∷ revoking "g-1" "withdrawn" ∷ sweeping 9000 ∷ []

row-revoked :
    Postgres.get "g-1" (apply_all postgres_store saved_and_revoked Postgres.empty)
    ≡ some revoked_row
unfolding apply_all apply Postgres.save insert_row Postgres.mark_expired Postgres.expire_rows
    Postgres.revoke Postgres.get row_of set_revoked record_of
row-revoked = refl

apply_all-listed_example :
    has_revocation "g-1"
      (apply_all postgres_store saved_and_revoked Postgres.empty).grant_revocations
    ≡ true
apply_all-listed_example =
    apply_all-listed saved_and_revoked "g-1" revoked_row (row-issued, (tt, (tt, tt))) row-revoked
      refl

held_revoked : Memory.get "g-1" (("g-1", revoked_row) ∷ []) ≡ some revoked_row
unfolding Memory.get map_get
held_revoked = refl

revoke-apply_all_example :
    (Memory.revoke "g-1" "again" (
      apply_all memory_store
        (sweeping 9000 ∷ revoking "g-1" "twice" ∷ [])
        (("g-1", revoked_row) ∷ []))).0
    ≡ RevokeOutcome.already_revoked
revoke-apply_all_example =
    revoke-apply_all memory_store memory_store-IsGrantStore "g-1"
      (sweeping 9000 ∷ revoking "g-1" "twice" ∷ []) revoked_row "again" (("g-1", revoked_row) ∷ [])
      (tt, (tt, tt)) held_revoked refl

nothing-refused :
    (redeem_grant memory_revocations memory_redemptions toy plain_zod (presenting null) [] []).0
    ≡ refused 400 (offline malformed) (some "invalid")
unfolding redeem_grant check_offline verify_grant parse_signed_grant strict
nothing-refused = refl

redeem_grant-refused_keeps_example :
    (redeem_grant memory_revocations memory_redemptions toy plain_zod (presenting null) [] []).1
    ≡ []
redeem_grant-refused_keeps_example =
    redeem_grant-refused_keeps memory_revocations memory_redemptions [] [] toy plain_zod
      (presenting null) 400 (offline malformed) (some "invalid") nothing-refused cc
