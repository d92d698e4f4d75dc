-- ===== src/Ed25519/RoundTrip.antt =====
-- A signature verifies under the key that belongs to it.
use Prim.Native.Char.{Char, code}
use Prim.Native.String.{count}
use Prim.Native.String.count
use beckn_data_commons.Base.{
  ℕ, ◌*◌, String, true, some, List, ◌≡◌, refl, arith, length, >>=-eq-some,
}
use beckn_data_commons.Js.Text.{all_chars, utf8}
use beckn_data_commons.Json.{Json}
use beckn_data_commons.Canonical.{canonical_json}
use beckn_data_commons.Ed25519.{
  Noble, IsNoble, AreBytes, is_lower_hex, is_hex, lower_char, lower, assert_hex, public_key_for,
  sign, verify, sign_canonical, verify_canonical,
}

is_hex_of_lower : (s : String) → all_chars is_lower_hex s ≡ true → all_chars is_hex s ≡ true
unfolding all_chars
is_hex_of_lower String.[] h = refl
is_hex_of_lower (String.◌∷◌ c s) h = ground (arith, is_hex_of_lower s)

lower_char_of_lower : (c : Char) → is_lower_hex (code c) ≡ true → lower_char c ≡ c
unfolding lower_char
lower_char_of_lower c h = ground arith

lower_of_lower : (s : String) → all_chars is_lower_hex s ≡ true → lower s ≡ s
unfolding all_chars lower
lower_of_lower String.[] h = refl
lower_of_lower (String.◌∷◌ c s) h = ground (arith, lower_char_of_lower c, lower_of_lower s)

count-lower : (s : String) → count (lower s) ≡ count s
unfolding lower
count-lower String.[] = refl
count-lower (String.◌∷◌ c s) = simp (count.cons, count-lower s)

module _ (noble : Noble) (laws : IsNoble noble) where
  open noble use {hex_to_bytes, bytes_to_hex, get_public_key, sign_async, verify_async}

  -- what the library encodes is read back
  assert_hex-bytes_to_hex :
      (bs : List ℕ) (n : ℕ)
      → AreBytes bs
      → length bs ≡ n
      → assert_hex noble (bytes_to_hex bs) n ≡ some bs
  unfolding assert_hex
  assert_hex-bytes_to_hex bs n h e =
      let low = laws.lower_hex bs in
      rw (is_hex_of_lower _ low, lower_of_lower _ low, laws.hex_round_trip bs h)
        (ground (arith, laws.hex_length bs))

  -- an accepted key has the bytes that it must have
  pub assert_hex-AreBytes :
      (s : String) (n : ℕ) {bs : List ℕ}
      → assert_hex noble s n ≡ some bs
      → AreBytes bs × (length bs ≡ n)
  unfolding assert_hex
  assert_hex-AreBytes s n {bs} h =
      let (sized, same) = checked in
      rw (← same) (laws.hex_bytes _, laws.hex_bytes_length _ n (rw count-lower sized))
    where
      checked : (count s ≡ n * 2) × (hex_to_bytes (lower s) ≡ bs)
      checked = ground arith

  -- A key that has a public key signs any text, in 128 hexadecimal digits.
  pub sign_total :
      (message key : String) {public : String}
      → public_key_for noble key ≡ some public
      → (signature : String) × (sign noble message key ≡ some signature)
        × (all_chars is_lower_hex signature ≡ true)
        × (count signature ≡ 128)
  unfolding public_key_for sign
  sign_total message key derived =
      let (priv, read, _) = >>=-eq-some (assert_hex noble key 32) _ derived in
      let (good, long) = assert_hex-AreBytes key 32 read in
      let (_, sig_long) = laws.signature_bytes (utf8 message) priv good long in
      let signature = bytes_to_hex (sign_async (utf8 message) priv) in
      (
        signature,
        rw (read, sign),
        laws.lower_hex _,
        omega (arith, laws.hex_length (sign_async (utf8 message) priv)),
      )

  -- A signature made with a private key verifies, over the same message, under the public key that
  -- is derived from it.
  pub verify-sign :
      (message private_key : String) {signature public_key : String}
      → sign noble message private_key ≡ some signature
      → public_key_for noble private_key ≡ some public_key
      → verify noble signature message public_key ≡ true
  unfolding sign public_key_for verify
  verify-sign message private_key signed derived =
      let (priv, read, made) = >>=-eq-some (assert_hex noble private_key 32) _ signed in
      let (priv', read', public) = >>=-eq-some (assert_hex noble private_key 32) _ derived in
      let (good, long) = assert_hex-AreBytes private_key 32 read in
      let (sig_good, sig_long) = laws.signature_bytes (utf8 message) priv good long in
      let (pub_good, pub_long) = laws.public_key_bytes priv good long in
      ground (
        arith,
        read,
        read',
        made,
        public,
        assert_hex-bytes_to_hex (sign_async (utf8 message) priv) 64 sig_good sig_long,
        assert_hex-bytes_to_hex (get_public_key priv) 32 pub_good pub_long,
        laws.accepts_own (utf8 message) priv good long,
      )

  pub verify_canonical-sign_canonical :
      (payload : Json) (private_key : String) {signature public_key : String}
      → sign_canonical noble payload private_key ≡ some signature
      → public_key_for noble private_key ≡ some public_key
      → verify_canonical noble signature payload public_key ≡ true
  unfolding sign_canonical verify_canonical
  verify_canonical-sign_canonical payload private_key signed derived =
      let (text, e, made) = >>=-eq-some (canonical_json payload) _ signed in
      rw (e, verify_canonical) (verify-sign text private_key made derived)
