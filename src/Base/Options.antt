-- ===== src/Base/Options.antt =====
-- Options as the results of partial code: `undefined`, a failed parse, a missing key.
use mathlib.Core.Path.{◌≡◌, refl, subst}
use mathlib.Core.Bool.{Bool, true, false}
use mathlib.Core.Logic.{◌⊎◌, inl, inr}
use mathlib.Core.Option.{Option, none, some, some-injective}
use beckn_data_commons.Base.Tests.{if◌then◌else◌, Bool-cases}

infixl 5 ◌>>=◌ ◌>>◌
abbrev pub ◌>>=◌ {ℓ κ} : {A : Type ℓ} {B : Type κ} → Option A → (A → Option B) → Option B
none >>= f = none
some a >>= f = f a

abbrev pub ◌>>◌ {ℓ} : {B : Type ℓ} → Option (Unit {0}) → Option B → Option B
m >> k = m >>= λ _. k

-- a check of a parse
abbrev pub guard : Bool → Option (Unit {0})
guard true = some tt
guard false = none

-- a further test of what was read
abbrev pub such_that {ℓ} : {A : Type ℓ} → (A → Bool) → Option A → Option A
such_that p none = none
such_that p (some a) = if p a then some a else none

-- `a ?? b` with a default that is defined
abbrev pub or_else {ℓ} : {A : Type ℓ} → Option A → A → A
or_else none b = b
or_else (some a) b = a

-- `a ?? b`
abbrev pub or_option {ℓ} : {A : Type ℓ} → Option A → Option A → Option A
or_option none b = b
or_option (some a) b = some a

abbrev pub is_some {ℓ} : {A : Type ℓ} → Option A → Bool
is_some none = false
is_some (some a) = true

pub Option-cases {ℓ} : {A : Type ℓ} (o : Option A) → (o ≡ none) ⊎ ((a : A) × (o ≡ some a))
Option-cases none = inl refl
Option-cases (some a) = inr (a, refl)

-- Inversion of a parse that succeeded, for proofs where the parts stay shut.
pub >>=-eq-some {ℓ κ} :
    {A : Type ℓ} {B : Type κ} (m : Option A) (f : A → Option B) {b : B}
    → (m >>= f) ≡ some b
    → (a : A) × (m ≡ some a) × (f a ≡ some b)
>>=-eq-some (some a) f h = (a, refl, h)
>>=-eq-some none f h = cc

-- Whatever `o` holds has the property.
pub record Ensures {ℓ κ} {A : Type ℓ} (P : A → Type κ) (o : Option A) : Type (ℓ ⊔ κ) where
  pub at : (a : A) → o ≡ some a → P a

pub Ensures-any {ℓ} : {A : Type ℓ} (o : Option A) → Ensures (λ a. Unit {0}) o
Ensures-any o = record { at = λ a e. tt }

pub Ensures-bind {ℓ κ ι ο} :
    {A : Type ℓ} {B : Type κ} {Q : A → Type ι} {P : B → Type ο} (m : Option A) (f : A → Option B)
    → Ensures Q m
    → ((a : A) → Q a → Ensures P (f a))
    → Ensures P (m >>= f)
Ensures-bind none f km kf = record { at = λ b e. cc }
Ensures-bind (some a) f km kf = kf a (km.at a refl)

pub Ensures-such_that {ℓ} :
    {A : Type ℓ} (p : A → Bool) (o : Option A) → Ensures (λ a. p a ≡ true) (such_that p o)
Ensures-such_that p none = record { at = λ a e. cc }
Ensures-such_that {A} p (some b) = elim (Bool-cases (p b)) [
  | inl h ↦ record { at = λ a e. kept a h (rw h at e) }
  | inr h ↦ record { at = λ a e. lost a (rw h at e) }
]
  where
    kept : (a : A) → p b ≡ true → some b ≡ some a → p a ≡ true
    kept a h e = cc (h, some-injective _ _ e)

    lost : (a : A) → none ≡ some a → p a ≡ true
    lost a e = cc

pub Ensures-if {ℓ κ} :
    {A : Type ℓ} (P : A → Type κ) (b : Bool) (a : A)
    → (b ≡ true → P a)
    → Ensures P (if b then some a else none)
Ensures-if P true a h = record { at = λ c e. subst P (some-injective _ _ e) (h refl) }
Ensures-if P false a h = record { at = λ c e. cc }

pub Ensures-some {ℓ κ} : {A : Type ℓ} (P : A → Type κ) (a : A) → P a → Ensures P (some a)
Ensures-some P a h = record { at = λ c e. subst P (some-injective _ _ e) h }

pub Ensures-none {ℓ κ} : {A : Type ℓ} (P : A → Type κ) → Ensures P none
Ensures-none P = record { at = λ a e. cc }
