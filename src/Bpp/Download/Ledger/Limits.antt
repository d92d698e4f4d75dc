-- ===== src/Bpp/Download/Ledger/Limits.antt =====
-- The cap and the revocation of a grant over a series of events.
use beckn_data_commons.Base.{
  ℕ, ◌+◌, ◌-◌, ◌≤◌, String, true, false, ◌==◌, ◌&&◌, ◌≡◌, ◌≢◌, ◌⊎◌, inl, inr, refl, arith, eq_iff,
  Option, none, some, List, [], ◌∷◌, Bool-cases, Option-cases, if◌then◌else◌,
}
use beckn_data_commons.Ed25519.{Noble}
use beckn_data_commons.Zod.{Zod}
use beckn_data_commons.Grant.Types.{AccessGrantClaims}
use beckn_data_commons.Grant.Verify.{verify_grant}
use beckn_data_commons.Bpp.Stores.{
  RevocationStore, RedemptionStore, IsRevocationStore, IsRedemptionStore,
}
use beckn_data_commons.Bpp.Download.{
  ResolvedFile, RedeemParams, RedeemReason, issuer_key_unconfigured, revoked, resource_unavailable,
  download_limit_exceeded, offline, RedeemResult, served, refused, offline_options, offline_status,
  over_cap, resolved, reserve, find_file, check_online, check_offline, redeem_grant,
}
use beckn_data_commons.Bpp.Download.Served.{IsWithin, GrantVerification-cases}
use beckn_data_commons.Bpp.Download.Ledger.{
  Event, presented, revocation, run, is_of, is_capped_of, number_of, has_cap,
}

module _ {R C : Type 0} (revocations : RevocationStore R) (redemptions : RedemptionStore C)
    (ledger : R) (counts : C) where
  -- the counts after a redemption of `c`
  abbrev pub spent : AccessGrantClaims → C
  spent c = (redemptions.record_redemption c.grant_id counts).1

  abbrev pub count_of : AccessGrantClaims → ℕ
  count_of c = (redemptions.record_redemption c.grant_id counts).0

  -- What a redemption can come to: a refusal that leaves the counts, or, for a grant that is not
  -- revoked, a slot that is taken, with a refusal for the cap or a download within it.
  abbrev pub Outcome : RedeemResult × C → Type 0
  Outcome r =
      ((status : ℕ) × (reason : RedeemReason) × (detail : Option String) × (reason
          ≢ download_limit_exceeded)
        × (r ≡ (refused status reason detail, counts)))
      ⊎ ((c : AccessGrantClaims) × (revocations.is_revoked c.grant_id ledger ≡ false)
          × ((r ≡ (refused 403 download_limit_exceeded none, spent c))
              ⊎ ((file : ResolvedFile) × IsWithin (count_of c) c.scope.max_downloads
                  × (r ≡ (served c file (count_of c), spent c)))))

  over_cap-IsWithin : (cap : Option ℕ) (n : ℕ) → over_cap cap n ≡ false → IsWithin n cap
  over_cap-IsWithin none n h = tt
  over_cap-IsWithin (some cap) n h = ground arith

  reserve-Outcome :
      (c : AccessGrantClaims) (file : ResolvedFile)
      → revocations.is_revoked c.grant_id ledger ≡ false
      → Outcome (reserve revocations redemptions c file counts)
  unfolding reserve
  reserve-Outcome c file stands = elim (Bool-cases (over_cap c.scope.max_downloads (count_of c))) [
    | inl over ↦ inr (c, stands, inl (rw (over, reserve) refl))
    | inr within ↦
        inr (c, stands, inr (file, over_cap-IsWithin _ _ within, rw (within, reserve) refl))
  ]

  check_online-Outcome :
      (params : RedeemParams) (c : AccessGrantClaims)
      → Outcome (check_online revocations redemptions params c ledger counts)
  unfolding check_online find_file
  check_online-Outcome params c = elim (Bool-cases (revocations.is_revoked c.grant_id ledger)) [
    | inl gone ↦ rw (gone, check_online) (inl (403, revoked, none, cc, refl))
    | inr stands ↦ elim (Option-cases (resolved params c)) [
      | inl missing ↦
          rw (stands, check_online)
            (rw (missing, find_file) (inl (404, resource_unavailable, none, cc, refl)))
      | inr (file, found) ↦
          rw (stands, check_online) (rw (found, find_file) (reserve-Outcome c file stands))
    ]
  ]

  pub redeem_grant-Outcome :
      (noble : Noble) (zod : Zod) (params : RedeemParams)
      → Outcome (redeem_grant revocations redemptions noble zod params ledger counts)
  unfolding redeem_grant check_offline
  redeem_grant-Outcome noble zod params =
      elim (Bool-cases (params.access_manager_public_key == "")) [
        | inl unset ↦ rw (unset, redeem_grant) (inl (503, issuer_key_unconfigured, none, cc, refl))
        | inr set ↦
            elim (GrantVerification-cases
              (verify_grant noble zod params.signed_grant (offline_options params))) [
                | inl (c, good) ↦
                    rw (set, redeem_grant)
                      (rw (good, check_offline) (check_online-Outcome params c))
                | inr (reason, detail, bad) ↦
                    rw (set, redeem_grant)
                      (rw (bad, check_offline)
                        (inl (offline_status reason, offline reason, detail, cc, refl)))
              ]
      ]

  -- A refusal takes a slot of no grant, unless it is the refusal for the cap.
  pub redeem_grant-refused_keeps :
      (noble : Noble) (zod : Zod) (params : RedeemParams) (status : ℕ) (reason : RedeemReason)
      (detail : Option String)
      → (redeem_grant revocations redemptions noble zod params ledger counts).0
        ≡ refused status reason detail
      → reason ≢ download_limit_exceeded
      → (redeem_grant revocations redemptions noble zod params ledger counts).1 ≡ counts
  redeem_grant-refused_keeps noble zod params status reason detail e other =
      elim (redeem_grant-Outcome noble zod params) [
        | inl (_, _, _, _, same) ↦ rw same
        | inr (c, _, inl limit) ↦ ground (arith, limit)
        | inr (c, _, inr (file, _, got)) ↦ cc
      ]

module _ {R C : Type 0} (revocations : RevocationStore R) (redemptions : RedemptionStore C)
    (noble : Noble) (zod : Zod) where
  module _ (laws : IsRedemptionStore redemptions) (grant_id : String) (cap : ℕ) where
    count_grows :
        (k : String) (counts : C)
        → ((k == grant_id) ≡ true) ⊎ ((k == grant_id) ≡ false)
        → redemptions.get_count grant_id counts
          ≤ redemptions.get_count grant_id (redemptions.record_redemption k counts).1
    count_grows k counts (inl same) =
        let e : k ≡ grant_id = (eq_iff k grant_id).0 same in
        rw e (omega (arith, laws.counted grant_id counts))
    count_grows k counts (inr other) =
        omega (arith, laws.others k grant_id counts (ground (arith, eq_iff k grant_id)))

    -- A slot that is taken within the cap pays for a download.
    slot_paid :
        (k : String) (m : Option ℕ) (counts : C)
        → IsWithin (redemptions.record_redemption k counts).0 m
        → ((if k == grant_id && has_cap cap m then 0 + 1 else 0)
              + (cap - redemptions.get_count grant_id (redemptions.record_redemption k counts).1)
            ≤ cap - redemptions.get_count grant_id counts)
    slot_paid k none counts h = ground (arith, count_grows k counts (Bool-cases (k == grant_id)))
    slot_paid k (some n) counts h = ground (
      arith,
      count_grows k counts (Bool-cases (k == grant_id)),
      laws.returned k counts,
      laws.counted k counts,
      eq_iff k grant_id,
    )

    -- A redemption pays for what it serves under the cap.
    redeem_grant-paid :
        (ledger : R) (counts : C) (r : RedeemResult × C)
        → Outcome revocations redemptions ledger counts r
        → (number_of (is_capped_of grant_id cap) (r.0 ∷ [])
              + (cap - redemptions.get_count grant_id r.1)
            ≤ cap - redemptions.get_count grant_id counts)
    unfolding number_of
    redeem_grant-paid ledger counts r (inl (status, reason, detail, _, same)) =
        rw same (omega arith)
    redeem_grant-paid ledger counts r (inr (c, _, inl limit)) =
        rw limit
          (omega (arith, count_grows (c.grant_id) counts (Bool-cases (c.grant_id == grant_id))))
    redeem_grant-paid ledger counts r (inr (c, _, inr (file, within, got))) =
        rw got (slot_paid c.grant_id c.scope.max_downloads counts within)

    -- Over any series of presented grants and revocations, the downloads that are served under
    -- grants with one id and one cap are no more than the cap less the count that the store has
    -- recorded before for this id, and there are none when that count has reached the cap.
    pub run-cap :
        (events : List Event) (ledger : R) (counts : C)
        → number_of
            (is_capped_of grant_id cap)
            (run revocations redemptions noble zod events ledger counts)
          ≤ cap - redemptions.get_count grant_id counts
    unfolding run number_of
    run-cap [] ledger counts = omega arith
    run-cap (presented params ∷ events) ledger counts = ground (
      arith,
      redeem_grant-paid ledger counts _
          (redeem_grant-Outcome revocations redemptions ledger counts noble zod params),
      run-cap events ledger (redeem_grant revocations redemptions noble zod params ledger counts).1,
    )
    run-cap (revocation k reason ∷ events) ledger counts =
        run-cap events (revocations.revoke k reason ledger) counts

  module _ (laws : IsRevocationStore revocations) (grant_id : String) where
    redeem_grant-revoked :
        (ledger : R) (counts : C) (r : RedeemResult × C)
        → revocations.is_revoked grant_id ledger ≡ true
        → Outcome revocations redemptions ledger counts r
        → is_of grant_id r.0 ≡ false
    redeem_grant-revoked ledger counts r gone (inl (status, reason, detail, _, same)) = rw same
    redeem_grant-revoked ledger counts r gone (inr (c, _, inl limit)) = rw limit
    redeem_grant-revoked ledger counts r gone (inr (c, stands, inr (file, _, got))) =
        rw got (ground (arith, eq_iff c.grant_id grant_id))

    -- Once a grant is revoked no download is served under its id, whatever grants are presented and
    -- revoked after.
    pub run-revoked :
        (events : List Event) (ledger : R) (counts : C)
        → revocations.is_revoked grant_id ledger ≡ true
        → number_of (is_of grant_id) (run revocations redemptions noble zod events ledger counts)
          ≡ 0
    unfolding run number_of
    run-revoked [] ledger counts gone = refl
    run-revoked (presented params ∷ events) ledger counts gone = ground (
      arith,
      redeem_grant-revoked ledger counts _ gone
          (redeem_grant-Outcome revocations redemptions ledger counts noble zod params),
      run-revoked events ledger
          (redeem_grant revocations redemptions noble zod params ledger counts).1 gone,
    )
    run-revoked (revocation k reason ∷ events) ledger counts gone =
        run-revoked events (revocations.revoke k reason ledger) counts
          (laws.stays grant_id k reason ledger gone)
