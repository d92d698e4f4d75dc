-- ===== src/Tests/Noble.antt =====
-- A concrete `Noble` that meets the laws: hexadecimal as it is, and a scheme without secrecy in place
-- of Ed25519. A public key is the private key; a signature is the key and a checksum, 32 times.
use Prim.Native.Char.{Char, code}
use Prim.Native.String.{count, char_at}
use Prim.Native.String.count
use beckn_data_commons.Base.{
  ℕ, zero, suc, ◌+◌, ◌-◌, ◌*◌, ◌/◌, ◌%◌, ◌<◌, String, Bool, true, false, ◌&&◌, some, List, [], ◌∷◌,
  ◌++◌, ◌≡◌, refl, ap, arith, leb, eqb, length, length-append, All-append, if◌then◌else◌,
}
use beckn_data_commons.Js.Text.{all_chars}
use beckn_data_commons.Js.Numeral.{all_below, all_below_sound}
use beckn_data_commons.Ed25519.{Noble, IsNoble, AreBytes, is_lower_hex}

abbrev hex_digit : ℕ → Char
hex_digit d = char_at "0123456789abcdef" d

abbrev hex_value : Char → ℕ
hex_value c = if leb b'a' (code c) then code c - 87 else code c - 48

abbrev digit_ok : ℕ → Bool
digit_ok d = is_lower_hex (code (hex_digit d)) && eqb (hex_value (hex_digit d)) d

hex_table : all_below 16 digit_ok ≡ true
hex_table = refl

hex_digit_ok : (d : ℕ) → d < 16 → digit_ok d ≡ true
hex_digit_ok d h = all_below_sound 16 digit_ok d hex_table h

abbrev to_hex : List ℕ → String
to_hex [] = ""
to_hex (b ∷ bs) = String.◌∷◌ (hex_digit (b / 16 % 16)) (String.◌∷◌ (hex_digit (b % 16)) (to_hex bs))

abbrev from_hex : String → List ℕ
from_hex String.[] = []
from_hex (String.◌∷◌ c String.[]) = []
from_hex (String.◌∷◌ c (String.◌∷◌ d s)) = (hex_value c * 16 + hex_value d) % 256 ∷ from_hex s

to_hex-lower : (bs : List ℕ) → all_chars is_lower_hex (to_hex bs) ≡ true
unfolding all_chars
to_hex-lower [] = refl
to_hex-lower (b ∷ bs) = ground (
  arith,
  hex_digit_ok (b / 16 % 16) (omega arith),
  hex_digit_ok (b % 16) (omega arith),
  to_hex-lower bs,
)

count-to_hex : (bs : List ℕ) → count (to_hex bs) ≡ length bs * 2
count-to_hex [] = refl
count-to_hex (b ∷ bs) = rw (count.cons, count.cons, count-to_hex bs) (omega arith)

from_hex-to_hex : (bs : List ℕ) → AreBytes bs → from_hex (to_hex bs) ≡ bs
from_hex-to_hex [] h = refl
from_hex-to_hex (b ∷ bs) (h, hs) =
    let high = hex_digit_ok (b / 16 % 16) (omega arith) in
    let low = hex_digit_ok (b % 16) (omega arith) in
    rw (from_hex-to_hex bs hs) (ap (λ n. n ∷ bs) (ground arith))

from_hex-AreBytes : (s : String) → AreBytes (from_hex s)
from_hex-AreBytes String.[] = tt
from_hex-AreBytes (String.◌∷◌ c String.[]) = tt
from_hex-AreBytes (String.◌∷◌ c (String.◌∷◌ d s)) = (omega arith, from_hex-AreBytes s)

length-from_hex : (s : String) (n : ℕ) → count s ≡ n * 2 → length (from_hex s) ≡ n
length-from_hex String.[] n h = omega arith
length-from_hex (String.◌∷◌ c String.[]) n h = absurd (omega (arith, rw count.cons at h))
length-from_hex (String.◌∷◌ c (String.◌∷◌ d s)) zero h =
    absurd (omega (arith, rw (count.cons) at h))
length-from_hex (String.◌∷◌ c (String.◌∷◌ d s)) (suc n) h =
    ap suc (length-from_hex s n (omega (arith, rw (count.cons, count.cons) at h)))

abbrev checksum : List ℕ → ℕ
checksum [] = 7
checksum (b ∷ bs) = (b + 3 * checksum bs) % 256

abbrev repeat : ℕ → ℕ → List ℕ
repeat zero b = []
repeat (suc n) b = b ∷ repeat n b

repeat-AreBytes : (n b : ℕ) → b < 256 → AreBytes (repeat n b)
repeat-AreBytes zero b h = tt
repeat-AreBytes (suc n) b h = (h, repeat-AreBytes n b h)

checksum-byte : (m : List ℕ) → checksum m < 256
checksum-byte [] = omega arith
checksum-byte (b ∷ m) = omega arith

abbrev same : List ℕ → List ℕ → Bool
same [] [] = true
same (x ∷ xs) (y ∷ ys) = eqb x y && same xs ys
same _ _ = false

same_refl : (xs : List ℕ) → same xs xs ≡ true
same_refl [] = refl
same_refl (x ∷ xs) = ground (arith, same_refl xs)

abbrev toy_sign : List ℕ → List ℕ → List ℕ
toy_sign m k = k ++ repeat 32 (checksum m)

abbrev pub toy : Noble
toy = record {
  hex_to_bytes = from_hex;
  bytes_to_hex = to_hex;
  get_public_key = λ k. k;
  sign_async = toy_sign;
  verify_async = λ sig m k. some (same sig (toy_sign m k));
}

pub toy-IsNoble : IsNoble toy
toy-IsNoble = record {
  lower_hex = to_hex-lower;
  hex_length = count-to_hex;
  hex_round_trip = from_hex-to_hex;
  hex_bytes = from_hex-AreBytes;
  hex_bytes_length = length-from_hex;
  signature_bytes = λ m k h e. (
    All-append _ k (repeat 32 (checksum m)) h (repeat-AreBytes 32 _ (checksum-byte m)),
    omega (arith, length-append k (repeat 32 (checksum m))),
  );
  public_key_bytes = λ k h e. (h, e);
  accepts_own = λ m k h e. ap some (same_refl (toy_sign m k));
}
