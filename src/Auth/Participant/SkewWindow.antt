-- ===== src/Auth/Participant/SkewWindow.antt =====
-- Between the expiry of a message and the end of the clock's tolerance the message is still valid,
-- and the cache has forgotten it.
use beckn_data_commons.Base.{ℕ, ◌+◌, ◌/◌, ◌≤◌, String, true, false, some, ◌≡◌, refl, ap, arith}
use beckn_data_commons.Js.{
  Number, nat, fraction, negative, non_finite, gt_nat, lt_diff, thousand_lt,
}
use beckn_data_commons.Ed25519.{Noble}
use beckn_data_commons.Auth.ReplayCache.{ReplayCache}
use beckn_data_commons.Auth.ReplayCache.Laws.{seen_forgets}
use beckn_data_commons.Auth.Header.{ParsedHeader}
use beckn_data_commons.Auth.Message.{VerifyResult, accepted, replay_key}
use beckn_data_commons.Auth.Message.Accepted.{IsGenuine, skew_of}
use beckn_data_commons.Auth.Participant.{Participant, Delivery, options_of, participant_verify}
use beckn_data_commons.Auth.Participant.NoReplay.{
  parsed, accepted_new, check_replay-new, participant_verify_of_new,
}

gt_nat_mono : (x : Number) (n m : ℕ) → gt_nat x n ≡ false → n ≤ m → gt_nat x m ≡ false
unfolding gt_nat
gt_nat_mono (nat k) n m h le = ground arith
gt_nat_mono (fraction ms exact s) n m h le = ground arith
gt_nat_mono (negative ms exact s) n m h le = refl
gt_nat_mono (non_finite s) n m h le = h

-- A message that was accepted is accepted again, by the same participant and with nothing between,
-- when the clock has passed its expiry and not yet the tolerance after it: the cache drops a nonce
-- at the expiry, the verifier allows `clockSkewSeconds` more.
pub accepted_again_in_skew_window :
    (noble : Noble) (other : String → Number) (me : Participant) (first : Delivery) (now_ms : ℕ)
    (cache : ReplayCache) (k : String) (p : ParsedHeader)
    → parsed noble other me first ≡ some p
    → (participant_verify noble other me first cache).0 ≡ accepted k
    → first.now_ms ≤ now_ms
    → thousand_lt p.expires now_ms ≡ true
    → lt_diff p.expires (now_ms / 1000) (skew_of (options_of me now_ms)) ≡ false
    → (participant_verify noble other me
        (record first { now_ms = now_ms; cache_now_ms = now_ms })
        (participant_verify noble other me first cache).1).0
      ≡ accepted p.key_id
accepted_again_in_skew_window noble other me first now_ms cache k p e h later over inside =
    let (g, fresh) = accepted_new noble other me first cache k p h e in
    let new = check_replay-new first.cache_now_ms p cache k fresh in
    let again : Delivery = record first { now_ms = now_ms; cache_now_ms = now_ms } in
    let g' : IsGenuine noble other again.body (options_of me now_ms) again.header p = record {
      text = g.text;
      given = g.given;
      parsed = g.parsed;
      public_key = g.public_key;
      trusted = g.trusted;
      begun =
          gt_nat_mono p.created _ (now_ms / 1000 + skew_of (options_of me now_ms)) g.begun
            (omega arith);
      not_over = inside;
      signed = g.signed;
    } in
    rw (participant_verify_of_new noble other me first cache p g new) (
      ap (λ (r : VerifyResult × ReplayCache). r.0)
        (participant_verify_of_new noble other me again _ p g'
          (seen_forgets (replay_key p) p.expires first.cache_now_ms now_ms cache new over)))
