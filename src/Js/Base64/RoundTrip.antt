-- ===== src/Js/Base64/RoundTrip.antt =====
-- Bytes written as `base64url` are read back.
use Prim.Native.Char.{code}
use beckn_data_commons.Base.{
  ℕ, ◌+◌, ◌*◌, ◌/◌, ◌%◌, ◌<◌, String, Bool, true, false, eqb, Option, none, some, List, [], ◌∷◌,
  ◌≡◌, refl, ap, arith, All,
}
use beckn_data_commons.Js.Text.{all_chars}
use beckn_data_commons.Js.Numeral.{all_below, all_below_sound}
use beckn_data_commons.Js.Scalar.RoundTrip.{IsByte}
use beckn_data_commons.Js.Base64.{
  letter, is_letter, to_base64url, bits_of, sextets, bytes_of, from_base64url,
}

abbrev pub is : ℕ → Option ℕ → Bool
is n none = false
is n (some m) = eqb m n

abbrev bits_ok : ℕ → Bool
bits_ok n = is n (bits_of (code (letter n)))

bits_table : all_below 64 bits_ok ≡ true
unfolding letter bits_of
bits_table = refl

abbrev form_ok : ℕ → Bool
form_ok n = is_letter (code (letter n))

form_table : all_below 64 form_ok ≡ true
unfolding letter
form_table = refl

pub is_some_of : (n : ℕ) (o : Option ℕ) → is n o ≡ true → o ≡ some n
is_some_of n none h = cc
is_some_of n (some m) h = ap some (ground (arith, h))

bits_of-letter : (n : ℕ) → n < 64 → bits_of (code (letter n)) ≡ some n
bits_of-letter n h = is_some_of n _ (all_below_sound 64 bits_ok n bits_table h)

pub is_letter-letter : (n : ℕ) → n < 64 → is_letter (code (letter n)) ≡ true
is_letter-letter n h = all_below_sound 64 form_ok n form_table h

letter-ne-pad : (n : ℕ) → n < 64 → eqb (code (letter n)) b'=' ≡ false
letter-ne-pad n h = ground (arith, is_letter-letter n h)

same_cons : (x y : ℕ) (xs ys : List ℕ) → x ≡ y → xs ≡ ys → x ∷ xs ≡ y ∷ ys
same_cons x y xs ys e f = λ i. e i ∷ f i

sextets-letter : (n : ℕ) (s : String) → n < 64 → sextets (String.◌∷◌ (letter n) s) ≡ n ∷ sextets s
unfolding sextets
sextets-letter n s h = rw (letter-ne-pad n h, bits_of-letter n h) refl

-- Bytes written as `base64url` are read back.
pub from_base64url-to_base64url :
    (bs : List ℕ) → All IsByte bs → from_base64url (to_base64url bs) ≡ bs
unfolding from_base64url to_base64url bytes_of sextets
from_base64url-to_base64url [] h = refl
from_base64url-to_base64url (a ∷ []) (ha, _) =
    rw (sextets-letter (a / 4) _ (omega arith), sextets-letter (a % 4 * 16) _ (omega arith))
      (ap (λ x. x ∷ []) (omega arith))
from_base64url-to_base64url (a ∷ b ∷ []) (ha, (hb, _)) =
    rw
      (
        sextets-letter (a / 4) _ (omega arith),
        sextets-letter (a % 4 * 16 + b / 16) _ (omega arith),
        sextets-letter (b % 16 * 4) _ (omega arith),
      )
      (same_cons _ a _ _ (omega arith) (same_cons _ b _ _ (omega arith) refl))
from_base64url-to_base64url (a ∷ b ∷ c ∷ bs) (ha, (hb, (hc, h))) =
    rw
      (
        sextets-letter (a / 4) _ (omega arith),
        sextets-letter (a % 4 * 16 + b / 16) _ (omega arith),
        sextets-letter (b % 16 * 4 + c / 64) _ (omega arith),
        sextets-letter (c % 64) _ (omega arith),
      )
      (same_cons _ a _ _ (omega arith) (
        same_cons _ b _ _ (omega arith)
          (same_cons _ c _ _ (omega arith) (from_base64url-to_base64url bs h))))

-- The text of bytes has letters only.
pub Letters-to_base64url :
    (bs : List ℕ) → All IsByte bs → all_chars is_letter (to_base64url bs) ≡ true
unfolding all_chars to_base64url
Letters-to_base64url [] h = refl
Letters-to_base64url (a ∷ []) (ha, _) =
    rw (is_letter-letter (a / 4) (omega arith), is_letter-letter (a % 4 * 16) (omega arith)) refl
Letters-to_base64url (a ∷ b ∷ []) (ha, (hb, _)) =
    rw
      (
        is_letter-letter (a / 4) (omega arith),
        is_letter-letter (a % 4 * 16 + b / 16) (omega arith),
        is_letter-letter (b % 16 * 4) (omega arith),
      )
      refl
Letters-to_base64url (a ∷ b ∷ c ∷ bs) (ha, (hb, (hc, h))) =
    rw
      (
        is_letter-letter (a / 4) (omega arith),
        is_letter-letter (a % 4 * 16 + b / 16) (omega arith),
        is_letter-letter (b % 16 * 4 + c / 64) (omega arith),
        is_letter-letter (c % 64) (omega arith),
      )
      (Letters-to_base64url bs h)
