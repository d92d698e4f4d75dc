-- ===== src/Bap/App/Guarded.antt =====
-- What a callback needs to reach a collector.

use beckn_data_commons.Base.{String, ◌≡◌, ◌⊎◌, inl, inr, refl, some, List, All}
use beckn_data_commons.Js.{Number}
use beckn_data_commons.Ed25519.{Noble}
use beckn_data_commons.Auth.ReplayCache.{ReplayCache}
use beckn_data_commons.Auth.Header.{ParsedHeader}
use beckn_data_commons.Auth.Message.{VerifyResult, accepted, replay_key}
use beckn_data_commons.Auth.Message.Accepted.{VerifyResult-cases}
use beckn_data_commons.Auth.Participant.{Participant, Delivery, participant_verify, after}
use beckn_data_commons.Auth.Participant.NoReplay.{IsBefore, parsed, accepted_once}
use beckn_data_commons.Bap.Orchestrator.{Registry, deliver_callback}
use beckn_data_commons.Bap.App.{on_callback}

-- A callback route behind a verifier leaves the collectors as they are, or the verifier has accepted
-- the message and the callback is delivered.
pub on_callback-guarded :
    {A : Type 0} (verify_callback : Delivery → A → VerifyResult × A) (d : Delivery) (a : A)
    (s : Registry)
    → let r = on_callback (some verify_callback) d a s in
      (r.2 ≡ s)
      ⊎ ((key_id : String) × ((verify_callback d a).0 ≡ accepted key_id)
          × (r.2 ≡ deliver_callback d.body s))
unfolding on_callback
on_callback-guarded verify_callback d a s = elim (VerifyResult-cases (verify_callback d a).0) [
  | inl (key_id, good) ↦ rw (good, on_callback) (inr (key_id, refl, refl))
  | inr (reason, bad) ↦ rw (bad, on_callback) (inl refl)
]

-- A callback whose sender and nonce were accepted before is not delivered again, however many
-- messages are verified between, as long as the clock has not passed the expiry of the first.
pub on_callback-once :
    (noble : Noble) (other : String → Number) (me : Participant) (first second : Delivery)
    (between : List Delivery) (cache : ReplayCache) (k : String) (p q : ParsedHeader) (s : Registry)
    → parsed noble other me first ≡ some p
    → parsed noble other me second ≡ some q
    → replay_key p ≡ replay_key q
    → All (IsBefore p.expires) between
    → IsBefore p.expires second
    → (participant_verify noble other me first cache).0 ≡ accepted k
    → (on_callback
        (some (participant_verify noble other me))
        second
        (after noble other me between (participant_verify noble other me first cache).1)
        s).2
      ≡ s
on_callback-once noble other me first second between cache k p q s e e' same quiet quiet' h =
    elim (on_callback-guarded (participant_verify noble other me) second
      (after noble other me between (participant_verify noble other me first cache).1) s) [
        | inl kept ↦ kept
        | inr (j, good, _) ↦ absurd (
            accepted_once noble other me first second between cache k j p q e e' same quiet quiet' h
              good)
      ]
