-- ===== src/Base/Lists.antt =====
-- List operations over the native numbers, and predicates on lists by recursion.
use Prim.Native.Nat.{ℕ, zero, suc, ◌+◌}
use Prim.Native.String.{String}
use mathlib.Core.Path.{◌≡◌, refl, ap}
use mathlib.Core.Bool.{Bool, false, ◌||◌}
use mathlib.Core.Logic.{◌≢◌}
use mathlib.Core.Option.{Option, none, some, some-injective}
use mathlib.Core.List.{List, [], ◌∷◌, ◌++◌}
use native.Mathlib.Omega.{arith}
use text.Mathlib.Text.{◌==◌}
use beckn_data_commons.Base.Tests.{if◌then◌else◌}

module _ {ℓ} {A : Type ℓ} where
  abbrev pub length : List A → ℕ
  length [] = 0
  length (x ∷ xs) = suc (length xs)

  -- `xs[i]`
  abbrev pub get_elem? : ℕ → List A → Option A
  get_elem? i [] = none
  get_elem? zero (x ∷ xs) = some x
  get_elem? (suc i) (x ∷ xs) = get_elem? i xs

  -- a change of the element `i`
  abbrev pub update : (A → A) → ℕ → List A → List A
  update f i [] = []
  update f zero (x ∷ xs) = f x ∷ xs
  update f (suc i) (x ∷ xs) = x ∷ update f i xs

  -- `xs.slice(0, n)`
  abbrev pub take : ℕ → List A → List A
  take zero xs = []
  take (suc n) [] = []
  take (suc n) (x ∷ xs) = x ∷ take n xs

  -- `xs[0]`
  abbrev pub first : List A → Option A
  first [] = none
  first (x ∷ xs) = some x

  -- `xs.find(p)`
  abbrev pub find : (A → Bool) → List A → Option A
  find p [] = none
  find p (x ∷ xs) = if p x then some x else find p xs

  -- `xs.filter(p)`
  abbrev pub select : (A → Bool) → List A → List A
  select p [] = []
  select p (x ∷ xs) = let rest = select p xs in if p x then x ∷ rest else rest

  pub length-append : (xs ys : List A) → length (xs ++ ys) ≡ length xs + length ys
  length-append [] ys = omega arith
  length-append (x ∷ xs) ys = omega (arith, length-append xs ys)

module _ {ℓ} {A : Type ℓ} where
  pub get_elem?-update :
      (f : A → A) (i : ℕ) (xs : List A) (x : A)
      → get_elem? i xs ≡ some x
      → get_elem? i (update f i xs) ≡ some (f x)
  get_elem?-update f i [] x h = cc
  get_elem?-update f zero (y ∷ xs) x h = ap (λ z. some (f z)) (some-injective _ _ h)
  get_elem?-update f (suc i) (y ∷ xs) x h = get_elem?-update f i xs x h

  pub get_elem?-update_others :
      (f : A → A) (i j : ℕ) (xs : List A) → i ≢ j → get_elem? j (update f i xs) ≡ get_elem? j xs
  get_elem?-update_others f i j [] h = refl
  get_elem?-update_others f zero zero (x ∷ xs) h = absurd (h refl)
  get_elem?-update_others f zero (suc j) (x ∷ xs) h = refl
  get_elem?-update_others f (suc i) zero (x ∷ xs) h = refl
  get_elem?-update_others f (suc i) (suc j) (x ∷ xs) h =
      get_elem?-update_others f i j xs (λ e. h (ap suc e))

  -- the elements before the end stay when one is added
  pub get_elem?-append :
      (i : ℕ) (xs ys : List A) (x : A) → get_elem? i xs ≡ some x → get_elem? i (xs ++ ys) ≡ some x
  get_elem?-append i [] ys x h = cc
  get_elem?-append zero (y ∷ xs) ys x h = h
  get_elem?-append (suc i) (y ∷ xs) ys x h = get_elem?-append i xs ys x h

  pub get_elem?-last : (xs : List A) (x : A) → get_elem? (length xs) (xs ++ x ∷ []) ≡ some x
  get_elem?-last [] x = refl
  get_elem?-last (y ∷ xs) x = get_elem?-last xs x

-- `new Set(xs).has(x)`, `xs.includes(x)` for texts
abbrev pub contains : String → List String → Bool
contains x [] = false
contains x (y ∷ ys) = y == x || contains x ys

module _ {ℓ κ} {A : Type ℓ} (P : A → Type κ) where
  abbrev pub All : List A → Type κ
  All [] = Unit
  All (x ∷ xs) = P x × All xs

  pub All-append : (xs ys : List A) → All xs → All ys → All (xs ++ ys)
  All-append [] ys h k = k
  All-append (x ∷ xs) ys (p, h) k = (p, All-append xs ys h k)
