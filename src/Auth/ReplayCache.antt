-- ===== src/Auth/ReplayCache.antt =====
-- The store of nonces that were used. It holds `expiresSec`; the source holds the product with 1000
-- and compares that.
pub mod Laws
use beckn_data_commons.Base.{
  ℕ, String, Bool, true, false, not, ◌==◌, ◌||◌, List, [], ◌∷◌, ◌++◌, select, if◌then◌else◌,
}
use beckn_data_commons.Js.{Number, thousand_lt}

-- `seenUntil`, in the order of insertion
pub record ReplayCache : Type 0 where
  pub seen_until : List (String × Number)

abbrev pub empty : ReplayCache
empty = record { seen_until = [] }

unfoldable pub has_key : String → List (String × Number) → Bool
has_key key [] = false
has_key key ((k, until) ∷ m) = k == key || has_key key m

-- `this.seenUntil.has(key)`
abbrev pub has : String → ReplayCache → Bool
has key cache = has_key key cache.seen_until

unfoldable pub prune_entries : ℕ → List (String × Number) → List (String × Number)
prune_entries now_ms m = select (λ e. not (thousand_lt e.1 now_ms)) m

unfoldable pub prune : ℕ → ReplayCache → ReplayCache
prune now_ms cache = record { seen_until = prune_entries now_ms cache.seen_until }

-- `seen(key, expiresSec)` at the time `now_ms`: the new cache and the answer
unfoldable pub seen : ℕ → String → Number → ReplayCache → ReplayCache × Bool
seen now_ms key expires_sec cache =
    let pruned = prune now_ms cache in
    if has key pruned
    then (pruned, true)
    else (record { seen_until = pruned.seen_until ++ (key, expires_sec) ∷ [] }, false)
