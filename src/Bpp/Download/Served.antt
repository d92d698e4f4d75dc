-- ===== src/Bpp/Download/Served.antt =====
-- When a download is served, and what a refusal leaves behind.
use beckn_data_commons.Base.{
  ℕ, ◌≤◌, String, false, ◌==◌, ◌≡◌, ◌≢◌, ◌↔◌, ◌⊎◌, inl, inr, refl, arith, Option, none, some,
  Bool-cases, Option-cases, eq_iff,
}
use beckn_data_commons.Ed25519.{Noble}
use beckn_data_commons.Zod.{Zod}
use beckn_data_commons.Grant.Types.{AccessGrantClaims}
use beckn_data_commons.Grant.Verify.{
  GrantRejectionReason, GrantVerification, rejected, accepted, verify_grant,
}
use beckn_data_commons.Grant.Verify.Authorized.{IsAuthorized, verify_grant-accepted_iff}
use beckn_data_commons.Bpp.Stores.{RevocationStore, RedemptionStore}
use beckn_data_commons.Bpp.Download.{
  ResolvedFile, RedeemParams, served, offline_options, over_cap, resolved, reserve, find_file,
  check_online, check_offline, redeem_grant,
}

abbrev pub IsWithin : ℕ → Option ℕ → Type 0
IsWithin n none = Unit
IsWithin n (some cap) = n ≤ cap

over_cap_iff : (cap : Option ℕ) (n : ℕ) → (over_cap cap n ≡ false) ↔ IsWithin n cap
over_cap_iff none n = (λ h. tt, λ h. refl)
over_cap_iff (some cap) n = ground arith

pub GrantVerification-cases :
    (r : GrantVerification)
    → ((c : AccessGrantClaims) × (r ≡ accepted c))
      ⊎ ((reason : GrantRejectionReason) × (detail : Option String) × (r ≡ rejected reason detail))
GrantVerification-cases (accepted c) = inl (c, refl)
GrantVerification-cases (rejected reason detail) = inr (reason, detail, refl)

module _ {R C : Type 0} (revocations : RevocationStore R) (redemptions : RedemptionStore C)
    (noble : Noble) (zod : Zod) (params : RedeemParams) (ledger : R) (counts : C) where
  -- The five conditions of a download, with the claims, the file and the count that it reports.
  pub record MayDownload (c : AccessGrantClaims) (file : ResolvedFile) (n : ℕ) : Type 0 where
    pub configured : params.access_manager_public_key ≢ ""
    pub authorized : IsAuthorized noble zod params.signed_grant (offline_options params) c
    pub stands : revocations.is_revoked c.grant_id ledger ≡ false
    pub available : resolved params c ≡ some file
    pub counted : n ≡ (redemptions.record_redemption c.grant_id counts).0
    pub within : IsWithin n c.scope.max_downloads

  module _ (c : AccessGrantClaims) (file : ResolvedFile) (n : ℕ) where
    reserve-served_iff :
        (d : AccessGrantClaims) (f : ResolvedFile)
        → ((reserve revocations redemptions d f counts).0 ≡ served c file n) ↔ (
            (d ≡ c)
            × (f ≡ file)
            × (n ≡ (redemptions.record_redemption d.grant_id counts).0)
            × IsWithin n d.scope.max_downloads)
    unfolding reserve
    reserve-served_iff d f = ground (
      arith,
      over_cap_iff d.scope.max_downloads (redemptions.record_redemption d.grant_id counts).0,
      over_cap_iff d.scope.max_downloads n,
    )

    check_online-served_iff :
        (d : AccessGrantClaims)
        → ((check_online revocations redemptions params d ledger counts).0 ≡ served c file n) ↔ (
            (d ≡ c)
            × (revocations.is_revoked d.grant_id ledger ≡ false)
            × (resolved params d ≡ some file)
            × (n ≡ (redemptions.record_redemption d.grant_id counts).0)
            × IsWithin n d.scope.max_downloads)
    unfolding check_online find_file
    check_online-served_iff d = elim (Option-cases (resolved params d)) [
      | inl missing ↦ rw (missing, find_file) (ground (arith, missing))
      | inr (f, found) ↦ rw (found, find_file) (ground (arith, reserve-served_iff d f))
    ]

    -- A download is served, with these claims, this file and this count, exactly when the provider
    -- has the key of the Access Manager, the grant is an authorized grant with these claims for this
    -- provider and request, it is not revoked, the file is there, and the count, which is the one
    -- that the redemption is recorded with, is within the cap of the grant.
    pub redeem_grant-served_iff :
        ((redeem_grant revocations redemptions noble zod params ledger counts).0 ≡ served c file n)
        ↔ MayDownload c file n
    unfolding redeem_grant check_offline
    redeem_grant-served_iff = (to, from)
      where
        read :
            (d : AccessGrantClaims)
            → params.access_manager_public_key ≢ ""
            → verify_grant noble zod params.signed_grant (offline_options params) ≡ accepted d
            → (check_online revocations redemptions params d ledger counts).0 ≡ served c file n
            → MayDownload c file n
        read d key good e =
            let (same, stands, available, counted, within) = (check_online-served_iff d).0 e in
            rw (← same) (record {
              configured = key;
              authorized = (verify_grant-accepted_iff noble zod _ _ d).0 good;
              stands = stands;
              available = available;
              counted = counted;
              within = within;
            })

        to :
            (redeem_grant revocations redemptions noble zod params ledger counts).0
              ≡ served c file n
            → MayDownload c file n
        to e = elim (Bool-cases (params.access_manager_public_key == "")) [
          | inl unset ↦ cc (rw (unset, redeem_grant) at e)
          | inr set ↦
              elim (GrantVerification-cases
                (verify_grant noble zod params.signed_grant (offline_options params))) [
                  | inl (d, good) ↦
                      read d (ground (arith, eq_iff params.access_manager_public_key "")) good
                        (rw (good, check_offline) at (rw (set, redeem_grant) at e))
                  | inr (reason, detail, bad) ↦
                      cc (rw (bad, check_offline) at (rw (set, redeem_grant) at e))
                ]
        ]

        from :
            MayDownload c file n
            → (redeem_grant revocations redemptions noble zod params ledger counts).0
              ≡ served c file n
        from m =
            let set : (params.access_manager_public_key == "") ≡ false =
              ground (arith, m.configured, eq_iff params.access_manager_public_key "") in
            let good : verify_grant noble zod params.signed_grant (offline_options params)
                ≡ accepted c =
              (verify_grant-accepted_iff noble zod _ _ c).1 m.authorized in
            rw (set, redeem_grant)
              (rw (good, check_offline)
                ((check_online-served_iff c).1 (refl, m.stands, m.available, m.counted, m.within)))
