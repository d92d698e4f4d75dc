-- ===== src/Auth/Participant/NoReplay.antt =====
-- A message is accepted once, as long as the cache keeps its nonce.
use mathlib.Core.Option.{some-injective}
use beckn_data_commons.Base.{
  ℕ, ◌+◌, String, false, Option, some, List, [], ◌∷◌, ◌≡◌, ◌≢◌, ◌>>=◌, sym, ◌∙◌, arith, or_else,
  All, Bool-cases, Option-cases, inl, inr,
}
use beckn_data_commons.Js.{Number, gt_nat, lt_diff, thousand_lt}
use beckn_data_commons.Json.{Json}
use beckn_data_commons.Ed25519.{Noble}
use beckn_data_commons.Auth.ReplayCache.{ReplayCache, seen}
use beckn_data_commons.Auth.ReplayCache.Laws.{Holds, Holds-seen, Holds-seen_new, seen_again}
use beckn_data_commons.Auth.Header.{ParsedHeader, parse_header, present}
use beckn_data_commons.Auth.Message.{
  accepted, VerifyOptions, replay_key, check_replay, signature_ok, check_message, check_key,
  verify_message,
}
use beckn_data_commons.Auth.Message.Accepted.{
  now_sec, skew_of, IsGenuine, verify_message-genuine, verify_message-accepted,
}
use beckn_data_commons.Auth.Participant.{
  Participant, Delivery, options_of, participant_verify, after,
}

-- What holds of the cache before, and of the cache that `seen` leaves, holds after a verification.
module _ (noble : Noble) (other : String → Number) (body : Json) (opts : VerifyOptions) (now : ℕ)
    (cache : Option ReplayCache) (P : Option ReplayCache → Type 0) (before : P cache)
    (recorded : (p : ParsedHeader) → P (check_replay now p cache).1) where
  check_message-keeps :
      (p : ParsedHeader) (key : String) → P (check_message noble other body opts now cache p key).1
  unfolding check_message
  check_message-keeps p key = elim (Bool-cases (gt_nat p.created (now_sec opts + skew_of opts))) [
    | inl early ↦ rw early before
    | inr begun ↦ elim (Bool-cases (lt_diff p.expires (now_sec opts) (skew_of opts))) [
      | inl late ↦ rw (begun, late) before
      | inr live ↦ elim (Bool-cases (signature_ok noble p body key)) [
        | inl good ↦ rw (begun, live, good) (recorded p)
        | inr bad ↦ rw (begun, live, bad) before
      ]
    ]
  ]

  check_key-keeps : (p : ParsedHeader) → P (check_key noble other body opts now cache p).1
  unfolding check_key
  check_key-keeps p = elim (Option-cases (present (opts.resolve_key p.key_id))) [
    | inl unknown ↦ rw (unknown, check_key) before
    | inr (key, known) ↦ rw (known, check_key) (check_message-keeps p key)
  ]

  verify_message-keeps :
      (header : Option String) → P (verify_message noble other body opts now cache header).1
  unfolding verify_message
  verify_message-keeps header = elim (Option-cases (present header)) [
    | inl missing ↦ rw (missing, verify_message) before
    | inr (text, given) ↦ elim (Option-cases (parse_header other text)) [
      | inl malformed ↦ rw (given, verify_message) (rw malformed before)
      | inr (p, parsed) ↦ rw (given, verify_message) (rw parsed (check_key-keeps p))
    ]
  ]

-- The cache before the expiry that it keeps.
abbrev pub IsBefore : Number → Delivery → Type 0
IsBefore e d = thousand_lt e d.cache_now_ms ≡ false

check_replay-Holds :
    (key : String) (e : Number) (now : ℕ) (p : ParsedHeader) (c : ReplayCache)
    → thousand_lt e now ≡ false
    → Holds key e c.seen_until
    → Holds key e (or_else (check_replay now p (some c)).1 c).seen_until
unfolding check_replay
check_replay-Holds key e now p c h k =
    let kept = Holds-seen key e now (replay_key p) p.expires c h k in
    elim (Bool-cases (seen now (replay_key p) p.expires c).1) [
      | inl old ↦ rw old kept
      | inr new ↦ rw new kept
    ]

module _ (noble : Noble) (other : String → Number) (me : Participant) where
  participant_verify-Holds :
      (key : String) (e : Number) (d : Delivery) (c : ReplayCache)
      → IsBefore e d
      → Holds key e c.seen_until
      → Holds key e (participant_verify noble other me d c).1.seen_until
  unfolding participant_verify
  participant_verify-Holds key e d c h k =
      verify_message-keeps noble other d.body (options_of me d.now_ms) d.cache_now_ms (some c)
        (λ o. Holds key e (or_else o c).seen_until) k
        (λ p. check_replay-Holds key e d.cache_now_ms p c h k) d.header

  after-Holds :
      (key : String) (e : Number) (ds : List Delivery) (c : ReplayCache)
      → All (IsBefore e) ds
      → Holds key e c.seen_until
      → Holds key e (after noble other me ds c).seen_until
  unfolding after
  after-Holds key e [] c h k = k
  after-Holds key e (d ∷ ds) c (h, hs) k =
      after-Holds key e ds _ hs (participant_verify-Holds key e d c h k)

  -- the header of a delivery
  abbrev pub parsed : Delivery → Option ParsedHeader
  parsed d = present d.header >>= parse_header other

  -- An accepted delivery is genuine, with the header that it has, and was new to the cache.
  pub accepted_new :
      (d : Delivery) (c : ReplayCache) (k : String) (p : ParsedHeader)
      → (participant_verify noble other me d c).0 ≡ accepted k
      → parsed d ≡ some p
      → IsGenuine noble other d.body (options_of me d.now_ms) d.header p
        × ((check_replay d.cache_now_ms p (some c)).0 ≡ accepted k)
  unfolding participant_verify
  accepted_new d c k p h e =
      let (p', g, _, fresh) =
        verify_message-accepted noble other d.body (options_of me d.now_ms) d.cache_now_ms (some c)
          d.header k h in
      let same : p' ≡ p = some-injective _ _ (sym (rw (g.given) (g.parsed)) ∙ e) in
      (rw (← same) g, rw (← same) fresh)

-- The answer of the cache is "new" when it accepts.
pub check_replay-new :
    (now : ℕ) (p : ParsedHeader) (c : ReplayCache) (k : String)
    → (check_replay now p (some c)).0 ≡ accepted k
    → (seen now (replay_key p) p.expires c).1 ≡ false
unfolding check_replay
check_replay-new now p c k h = elim (Bool-cases (seen now (replay_key p) p.expires c).1) [
  | inl old ↦ cc (rw (old, check_replay) at h)
  | inr new ↦ new
]

-- A message that is new to the cache is accepted and recorded.
pub check_replay_of_new :
    (now : ℕ) (p : ParsedHeader) (c : ReplayCache)
    → (seen now (replay_key p) p.expires c).1 ≡ false
    → check_replay now p (some c)
      ≡ (accepted p.key_id, some (seen now (replay_key p) p.expires c).0)
unfolding check_replay
check_replay_of_new now p c new = rw new

module _ (noble : Noble) (other : String → Number) (me : Participant) where
  -- A genuine message that is new to the cache is accepted and recorded.
  pub participant_verify_of_new :
      (d : Delivery) (c : ReplayCache) (p : ParsedHeader)
      → IsGenuine noble other d.body (options_of me d.now_ms) d.header p
      → (seen d.cache_now_ms (replay_key p) p.expires c).1 ≡ false
      → participant_verify noble other me d c
        ≡ (accepted p.key_id, (seen d.cache_now_ms (replay_key p) p.expires c).0)
  unfolding participant_verify
  participant_verify_of_new d c p g new = rw (
    verify_message-genuine noble other d.body (options_of me d.now_ms) d.cache_now_ms (some c)
        d.header p g,
    check_replay_of_new d.cache_now_ms p c new,
  )

-- Two messages with one key of the cache, that is, with the same sender and nonce, are not both
-- accepted by a participant, however many messages come between them, as long as its clock has not
-- passed the expiry of the first when it looks at the cache.
pub accepted_once :
    (noble : Noble) (other : String → Number) (me : Participant) (first second : Delivery)
    (between : List Delivery) (cache : ReplayCache) (k j : String) (p q : ParsedHeader)
    → parsed noble other me first ≡ some p
    → parsed noble other me second ≡ some q
    → replay_key p ≡ replay_key q
    → All (IsBefore p.expires) between
    → IsBefore p.expires second
    → (participant_verify noble other me first cache).0 ≡ accepted k
    → (participant_verify noble other me second
        (after noble other me between (participant_verify noble other me first cache).1)).0
      ≢ accepted j
accepted_once noble other me first second between cache k j p q e e' same quiet quiet' h h' =
    let (g, fresh) = accepted_new noble other me first cache k p h e in
    let new = check_replay-new first.cache_now_ms p cache k fresh in
    let accepted_first = participant_verify_of_new noble other me first cache p g new in
    let held : Holds (replay_key p) p.expires
        (participant_verify noble other me first cache).1.seen_until =
      rw accepted_first (Holds-seen_new (replay_key p) p.expires first.cache_now_ms cache new) in
    let later = after-Holds noble other me (replay_key p) p.expires between _ quiet held in
    let (_, fresh') = accepted_new noble other me second _ j q h' e' in
    let new' = check_replay-new second.cache_now_ms q _ j fresh' in
    let old = seen_again (replay_key p) p.expires second.cache_now_ms q.expires _ quiet' later in
    ground (arith, old, new', same)
