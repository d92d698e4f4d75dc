-- ===== src/Bpp/Download/Ledger.antt =====
-- Series of downloads and revocations at one provider.
pub mod Limits
use beckn_data_commons.Base.{
  ℕ, ◌+◌, String, Bool, true, false, ◌==◌, ◌&&◌, eqb, Option, none, some, List, [], ◌∷◌,
  if◌then◌else◌,
}
use beckn_data_commons.Ed25519.{Noble}
use beckn_data_commons.Zod.{Zod}
use beckn_data_commons.Bpp.Stores.{RevocationStore, RedemptionStore}
use beckn_data_commons.Bpp.Download.{RedeemParams, RedeemResult, served, refused, redeem_grant}

-- What happens at a provider: a presented grant, or a revocation of a grant with its reason. The
-- stores are atomic, so concurrent requests come in some order.
pub data Event : Type 0 where
  presented : RedeemParams → Event
  revocation : String → String → Event

module _ {R C : Type 0} (revocations : RevocationStore R) (redemptions : RedemptionStore C)
    (noble : Noble) (zod : Zod) where
  -- the results of the presented grants
  unfoldable pub run : List Event → R → C → List RedeemResult
  run [] ledger counts = []
  run (presented params ∷ events) ledger counts =
      let r = redeem_grant revocations redemptions noble zod params ledger counts in
      r.0 ∷ run events ledger r.1
  run (revocation grant_id reason ∷ events) ledger counts =
      run events (revocations.revoke grant_id reason ledger) counts

abbrev pub has_cap : ℕ → Option ℕ → Bool
has_cap cap none = false
has_cap cap (some n) = eqb n cap

-- a download that was served under a grant with this id
abbrev pub is_of : String → RedeemResult → Bool
is_of grant_id (served claims file count) = claims.grant_id == grant_id
is_of grant_id (refused status reason detail) = false

-- a download that was served under a grant with this id and this cap
abbrev pub is_capped_of : String → ℕ → RedeemResult → Bool
is_capped_of grant_id cap (served claims file count) =
    claims.grant_id == grant_id && has_cap cap claims.scope.max_downloads
is_capped_of grant_id cap (refused status reason detail) = false

unfoldable pub number_of : (RedeemResult → Bool) → List RedeemResult → ℕ
number_of p [] = 0
number_of p (r ∷ rs) = let n = number_of p rs in if p r then n + 1 else n
