-- ===== src/Ed25519.antt =====
-- packages/crypto-utils/src/ed25519.ts: signing and verifying texts with keys in hexadecimal.
-- @noble/ed25519 is the parameter `Noble`; a thrown error is `none`.
pub mod RoundTrip
use Prim.Native.Char.{Char, code}
use Prim.Native.String
use Prim.Native.String.{count, char_at}
use beckn_data_commons.Base.{
  ℕ, ◌+◌, ◌-◌, ◌*◌, ◌<◌, String, Bool, true, false, ◌&&◌, ◌||◌, Option, none, some, List, ◌≡◌, leb,
  eqb, length, All, ◌>>=◌, or_else, if◌then◌else◌,
}
use beckn_data_commons.Js.Text.{all_chars, utf8}
use beckn_data_commons.Json.{Json}
use beckn_data_commons.Canonical.{canonical_json}

-- What the code calls of @noble/ed25519. `verify_async` may throw.
pub record Noble : Type 0 where
  pub hex_to_bytes : String → List ℕ
  pub bytes_to_hex : List ℕ → String
  pub get_public_key : List ℕ → List ℕ
  pub sign_async : List ℕ → List ℕ → List ℕ
  pub verify_async : List ℕ → List ℕ → List ℕ → Option Bool

abbrev pub is_lower_hex : ℕ → Bool
is_lower_hex c = leb b'0' c && leb c b'9' || leb b'a' c && leb c b'f'

abbrev pub is_hex : ℕ → Bool
is_hex c = is_lower_hex c || leb b'A' c && leb c b'F'

abbrev pub AreBytes : List ℕ → Type 0
AreBytes = All (λ b. b < 256)

-- The documented behaviour of @noble/ed25519 that the code relies on.
pub record IsNoble (noble : Noble) : Type 0 where
  pub lower_hex : (bs : List ℕ) → all_chars is_lower_hex (noble.bytes_to_hex bs) ≡ true
  pub hex_length : (bs : List ℕ) → count (noble.bytes_to_hex bs) ≡ length bs * 2
  pub hex_round_trip : (bs : List ℕ) → AreBytes bs → noble.hex_to_bytes (noble.bytes_to_hex bs) ≡ bs
  pub hex_bytes : (s : String) → AreBytes (noble.hex_to_bytes s)
  pub hex_bytes_length : (s : String) (n : ℕ) → count s ≡ n * 2 → length (noble.hex_to_bytes s) ≡ n
  pub signature_bytes :
      (m k : List ℕ)
      → AreBytes k
      → length k ≡ 32
      → AreBytes (noble.sign_async m k) × (length (noble.sign_async m k) ≡ 64)
  pub public_key_bytes :
      (k : List ℕ)
      → AreBytes k
      → length k ≡ 32
      → AreBytes (noble.get_public_key k) × (length (noble.get_public_key k) ≡ 32)
  pub accepts_own :
      (m k : List ℕ)
      → AreBytes k
      → length k ≡ 32
      → noble.verify_async (noble.sign_async m k) m (noble.get_public_key k) ≡ some true

-- `value.toLowerCase()` on hexadecimal digits
lower_char : Char → Char
lower_char c =
    if leb b'A' (code c) && leb (code c) b'F' then char_at "abcdef" (code c - b'A') else c

unfoldable pub lower : String → String
unfolding lower_char
lower String.[] = String.[]
lower (String.◌∷◌ c s) = String.◌∷◌ (lower_char c) (lower s)

abbrev private_key_bytes : ℕ
private_key_bytes = 32

abbrev public_key_bytes : ℕ
public_key_bytes = 32

abbrev signature_bytes : ℕ
signature_bytes = 64

pub record KeyPair : Type 0 where
  pub private_key : String
  pub public_key : String

module _ (noble : Noble) where
  open noble use {hex_to_bytes, bytes_to_hex, get_public_key, sign_async, verify_async}

  unfoldable pub assert_hex : String → ℕ → Option (List ℕ)
  unfolding lower
  assert_hex value expected_bytes =
      if all_chars is_hex value && eqb (count value) (expected_bytes * 2)
      then some (hex_to_bytes (lower value))
      else none

  -- `utils.randomPrivateKey()` gives the bytes
  unfoldable pub generate_key_pair : List ℕ → KeyPair
  generate_key_pair priv_bytes = record {
    private_key = bytes_to_hex priv_bytes;
    public_key = bytes_to_hex (get_public_key priv_bytes);
  }

  unfoldable pub public_key_for : String → Option String
  public_key_for private_key_hex = do
    priv ← assert_hex private_key_hex private_key_bytes
    some (bytes_to_hex (get_public_key priv))

  unfoldable pub sign : String → String → Option String
  sign message private_key_hex = do
    priv ← assert_hex private_key_hex private_key_bytes
    some (bytes_to_hex (sign_async (utf8 message) priv))

  -- neither a malformed input nor a throw of the library is an error here
  unfoldable pub verify : String → String → String → Bool
  verify signature_hex message public_key_hex =
      or_else
        (do
          sig ← assert_hex signature_hex signature_bytes
          public ← assert_hex public_key_hex public_key_bytes
          verify_async sig (utf8 message) public)
        false

  unfoldable pub sign_canonical : Json → String → Option String
  unfolding sign canonical_json
  sign_canonical payload private_key_hex = do
    text ← canonical_json payload
    sign text private_key_hex

  unfoldable pub verify_canonical : String → Json → String → Bool
  unfolding verify canonical_json
  verify_canonical signature_hex payload public_key_hex = elim (canonical_json payload) [
    | none ↦ false
    | some canonical ↦ verify signature_hex canonical public_key_hex
  ]
