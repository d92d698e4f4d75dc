-- ===== src/Auth/ReplayCache/Laws.antt =====
-- What the cache remembers, and how long.
use beckn_data_commons.Base.{
  ℕ, String, true, false, ◌||◌, List, [], ◌∷◌, ◌++◌, ◌≡◌, ◌⊎◌, refl, arith, eq_refl, Bool-cases,
  inl, inr,
}
use beckn_data_commons.Js.{Number, thousand_lt}
use beckn_data_commons.Auth.ReplayCache.{ReplayCache, has_key, has, prune_entries, prune, seen}

has_key-append :
    (key : String) (m n : List (String × Number))
    → has_key key (m ++ n) ≡ (has_key key m || has_key key n)
unfolding has_key
has_key-append key [] n = refl
has_key-append key ((k, u) ∷ m) n = ground (arith, has_key-append key m n)

-- Pruning adds nothing.
prune_entries-absent :
    (now : ℕ) (key : String) (m : List (String × Number))
    → has_key key m ≡ false
    → has_key key (prune_entries now m) ≡ false
unfolding has_key prune_entries
prune_entries-absent now key [] h = refl
prune_entries-absent now key ((k, u) ∷ m) h = ground (arith, prune_entries-absent now key m)

prune_entries-append :
    (now : ℕ) (m n : List (String × Number))
    → prune_entries now (m ++ n) ≡ prune_entries now m ++ prune_entries now n
unfolding prune_entries
prune_entries-append now [] n = refl
prune_entries-append now ((k, u) ∷ m) n = ground (arith, prune_entries-append now m n)

-- The cache has an entry for `key` with this expiry.
abbrev pub Holds : String → Number → List (String × Number) → Type 0
Holds key e [] = ⊥
Holds key e ((k, u) ∷ m) = ((k ≡ key) × (u ≡ e)) ⊎ Holds key e m

module _ (key : String) (e : Number) where
  Holds-append_right : (m n : List (String × Number)) → Holds key e n → Holds key e (m ++ n)
  Holds-append_right [] n h = h
  Holds-append_right (x ∷ m) n h = inr (Holds-append_right m n h)

  Holds-append_left : (m n : List (String × Number)) → Holds key e m → Holds key e (m ++ n)
  Holds-append_left (x ∷ m) n (inl h) = inl h
  Holds-append_left (x ∷ m) n (inr h) = inr (Holds-append_left m n h)
  Holds-append_left [] n h = absurd h

  -- What has not expired stays.
  Holds-prune_entries :
      (now : ℕ) (m : List (String × Number))
      → thousand_lt e now ≡ false
      → Holds key e m
      → Holds key e (prune_entries now m)
  unfolding prune_entries
  Holds-prune_entries now [] h k = absurd k
  Holds-prune_entries now ((j, u) ∷ m) h (inl (same, until)) = rw (until, h) (inl (same, refl))
  Holds-prune_entries now ((j, u) ∷ m) h (inr k) = elim (Bool-cases (thousand_lt u now)) [
    | inl gone ↦ rw gone (Holds-prune_entries now m h k)
    | inr stays ↦ rw stays (inr (Holds-prune_entries now m h k))
  ]

  Holds-has_key : (m : List (String × Number)) → Holds key e m → has_key key m ≡ true
  unfolding has_key
  Holds-has_key [] h = absurd h
  Holds-has_key ((j, u) ∷ m) (inl (same, _)) = rw (same, eq_refl key) refl
  Holds-has_key ((j, u) ∷ m) (inr h) = ground (arith, Holds-has_key m h)

  -- An entry that has not expired outlives any use of the cache.
  pub Holds-seen :
      (now : ℕ) (key' : String) (e' : Number) (c : ReplayCache)
      → thousand_lt e now ≡ false
      → Holds key e c.seen_until
      → Holds key e (seen now key' e' c).0.seen_until
  unfolding seen prune
  Holds-seen now key' e' c h k =
      let kept = Holds-prune_entries now c.seen_until h k in
      elim (Bool-cases (has_key key' (prune_entries now c.seen_until))) [
        | inl old ↦ rw old kept
        | inr new ↦ rw new (Holds-append_left _ _ kept)
      ]

  -- While the entry has not expired its key was seen.
  pub seen_again :
      (now : ℕ) (e' : Number) (c : ReplayCache)
      → thousand_lt e now ≡ false
      → Holds key e c.seen_until
      → (seen now key e' c).1 ≡ true
  unfolding seen prune
  seen_again now e' c h k = rw (Holds-has_key _ (Holds-prune_entries now c.seen_until h k))

  -- A key that was not seen is recorded.
  pub Holds-seen_new :
      (now : ℕ) (c : ReplayCache)
      → (seen now key e c).1 ≡ false
      → Holds key e (seen now key e c).0.seen_until
  unfolding seen
  Holds-seen_new now c new = elim (Bool-cases (has key (prune now c))) [
    | inl old ↦ cc (rw (old, seen) at new)
    | inr fresh ↦ rw fresh (Holds-append_right _ ((key, e) ∷ []) (inl (refl, refl)))
  ]

  -- Pruning after the expiry of an entry at the end leaves no entry of its key.
  prune-expired_last :
      (later : ℕ) (m : List (String × Number))
      → has_key key m ≡ false
      → thousand_lt e later ≡ true
      → has_key key (prune_entries later (m ++ (key, e) ∷ [])) ≡ false
  unfolding has_key
  prune-expired_last later m h over =
      rw (prune_entries-append, has_key-append, prune_entries-absent later key m h)
        (unfold prune_entries has_key in rw over)

  -- After its expiry a key that was recorded counts as new.
  pub seen_forgets :
      (now later : ℕ) (c : ReplayCache)
      → (seen now key e c).1 ≡ false
      → thousand_lt e later ≡ true
      → (seen later key e (seen now key e c).0).1 ≡ false
  unfolding seen
  seen_forgets now later c new over = elim (Bool-cases (has key (prune now c))) [
    | inl old ↦ cc (rw (old, seen) at new)
    | inr fresh ↦
        let gone : has key
              (prune later (record { seen_until = (prune now c).seen_until ++ (key, e) ∷ [] }))
            ≡ false =
          unfold prune in prune-expired_last later (prune now c).seen_until fresh over in
        rw (fresh, gone)
  ]

  -- A key that the cache does not have is new.
  pub seen_of_absent :
      (now : ℕ) (c : ReplayCache) → has_key key c.seen_until ≡ false → (seen now key e c).1 ≡ false
  unfolding seen prune
  seen_of_absent now c h = rw (prune_entries-absent now key c.seen_until h)
