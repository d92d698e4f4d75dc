-- ===== src/Js.antt =====
-- What the program uses of the JavaScript language and its standard library: numbers and texts.
pub mod Text
pub mod Numeral
pub mod Map
pub mod Uri
pub mod Space
pub mod Scalar
pub mod Base64
use Prim.Native.Char.{Char}
use Prim.Native.String
use Prim.Native.String.{char_at}
use beckn_data_commons.Base.{
  ℕ, zero, suc, ◌+◌, ◌*◌, ◌/◌, ◌%◌, String, Bool, true, false, not, ◌&&◌, ◌||◌, ◌==◌, ltb, eqb,
  if◌then◌else◌,
}

-- A number that is no natural number carries its size in thousandths, rounded down, whether that
-- is its exact size, and its printed form. These are all that the program's comparisons with whole
-- numbers read.
pub data Number : Type 0 where
  nat : ℕ → Number
  fraction : ℕ → Bool → String → Number
  negative : ℕ → Bool → String → Number
  non_finite : String → Number

-- `Number.isFinite(x)`
abbrev pub is_finite : Number → Bool
is_finite (non_finite s) = false
is_finite _ = true

-- `x > n`
unfoldable pub gt_nat : Number → ℕ → Bool
gt_nat (nat m) n = ltb n m
gt_nat (fraction ms exact s) n = ltb (1000 * n) ms || (eqb (1000 * n) ms && not exact)
gt_nat (negative ms exact s) n = false
gt_nat (non_finite s) n = s == "Infinity"

-- `x < n - k`, where `n - k` may be below zero
unfoldable pub lt_diff : Number → ℕ → ℕ → Bool
lt_diff (nat m) n k = ltb (m + k) n
lt_diff (fraction ms exact s) n k = ltb (ms + 1000 * k) (1000 * n)
lt_diff (negative ms exact s) n k =
    ltb (1000 * k) (1000 * n + ms) || (eqb (1000 * k) (1000 * n + ms) && not exact)
lt_diff (non_finite s) n k = s == "-Infinity"

-- `x * 1000 < n`
unfoldable pub thousand_lt : Number → ℕ → Bool
thousand_lt (nat m) n = ltb (m * 1000) n
thousand_lt (fraction ms exact s) n = ltb ms n
thousand_lt (negative ms exact s) n = true
thousand_lt (non_finite s) n = s == "-Infinity"

unfoldable pub digit : ℕ → Char
digit d = char_at "0123456789" d

unfoldable pub decimal_from : ℕ → ℕ → String → String
decimal_from zero n acc = acc
decimal_from (suc fuel) n acc =
    let more = decimal_from fuel (n / 10) (String.◌∷◌ (digit (n % 10)) acc) in
    if ltb n 10 then String.◌∷◌ (digit n) acc else more

-- the decimal form of a natural number below 10^21; each round divides by ten
unfoldable pub decimal : ℕ → String
unfolding decimal_from digit
decimal n = decimal_from (n + 1) n ""

-- `String(x)`
unfoldable pub number_text : Number → String
number_text (nat n) = decimal n
number_text (fraction ms exact s) = s
number_text (negative ms exact s) = s
number_text (non_finite s) = s
