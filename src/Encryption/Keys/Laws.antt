-- ===== src/Encryption/Keys/Laws.antt =====
-- Numbers and bytes, and the keys that are written and read back.
use webex_kms_sdk.Base.{
  ℕ, zero, suc, ◌+◌, ◌-◌, ◌*◌, ◌/◌, ◌%◌, ◌^◌, ◌<◌, ◌≡◌, refl, ◌∙◌, ap, [], ◌∷◌, ◌++◌, leb, length,
  length-append, Bool-cases, inl, inr, arith, leb→le, leb_false→lt, string_eq,
}
use native.Mathlib.Nat.{pow-suc, mul_comm}
use webex_kms_sdk.Number.{Bytes}
use webex_kms_sdk.Exceptions.{ok}
use webex_kms_sdk.Encryption.Base64.{b64url_encode}
use webex_kms_sdk.Encryption.Base64.Roundtrip.{AreBytes, b64url_decode-b64url_encode}
use webex_kms_sdk.Encryption.Crypto.{Crypto, to_bytes, from_bytes}
use webex_kms_sdk.Encryption.Keys.{
  drop, zeros, pad_to_32, ec_public_key_to_jwk, decode_int, jwk_to_ec_public_key,
}

from_bytes-append :
    (acc : ℕ) (bs : Bytes) (b : ℕ) → from_bytes acc (bs ++ (b ∷ [])) ≡ from_bytes acc bs * 256 + b
unfolding from_bytes
from_bytes-append acc [] b = refl
from_bytes-append acc (c ∷ bs) b = from_bytes-append (acc * 256 + c) bs b

-- A number that fits is what its bytes stand for.
pub from_bytes-to_bytes : (k n : ℕ) → n < 256 ^ k → from_bytes 0 (to_bytes k n) ≡ n
unfolding to_bytes from_bytes
from_bytes-to_bytes zero n h = ground arith
from_bytes-to_bytes (suc k) n h =
    from_bytes-append 0 (to_bytes k (n / 256)) (n % 256)
    ∙ rw (from_bytes-to_bytes k (n / 256) (div-lt k n h)) (omega arith)
  where
    div-lt : (k n : ℕ) → n < 256 ^ suc k → n / 256 < 256 ^ k
    div-lt k n h = let h' : n < 256 * 256 ^ k = rw (pow-suc, mul_comm) at h in omega arith

AreBytes-append : (bs : Bytes) (b : ℕ) → AreBytes bs → b < 256 → AreBytes (bs ++ (b ∷ []))
AreBytes-append [] b h l = (l, tt)
AreBytes-append (c ∷ bs) b h l = (h.0, AreBytes-append bs b h.1 l)

to_bytes-AreBytes : (k n : ℕ) → AreBytes (to_bytes k n)
unfolding to_bytes
to_bytes-AreBytes zero n = tt
to_bytes-AreBytes (suc k) n =
    AreBytes-append (to_bytes k (n / 256)) (n % 256) (to_bytes-AreBytes k (n / 256)) (omega arith)

length-to_bytes : (k n : ℕ) → length (to_bytes k n) ≡ k
unfolding to_bytes
length-to_bytes zero n = refl
length-to_bytes (suc k) n =
    omega (arith, length-append (to_bytes k (n / 256)) (n % 256 ∷ []), length-to_bytes k (n / 256))

length-zeros : (n : ℕ) → length (zeros n) ≡ n
length-zeros zero = refl
length-zeros (suc n) = ap suc (length-zeros n)

length-drop : (n : ℕ) (bs : Bytes) → length (drop n bs) ≡ length bs - n
length-drop zero bs = omega arith
length-drop (suc n) [] = omega arith
length-drop (suc n) (b ∷ bs) = omega (arith, length-drop n bs)

-- Any bytes are padded or trimmed to 32, and 32 bytes stay as they are.
pub length-pad_to_32 : (bs : Bytes) → length (pad_to_32 bs) ≡ 32
unfolding pad_to_32
length-pad_to_32 bs = elim (Bool-cases (leb 32 (length bs))) [
  | inl e ↦ rw e (omega (arith, leb→le 32 (length bs) e, length-drop (length bs - 32) bs))
  | inr e ↦ rw e (
      omega (
        arith,
        length-append (zeros (32 - length bs)) bs,
        length-zeros (32 - length bs),
        leb_false→lt 32 (length bs) e,
      ))
]

pad_to_32_id : (bs : Bytes) → length bs ≡ 32 → pad_to_32 bs ≡ bs
unfolding pad_to_32
pad_to_32_id bs h = rw h

coordinate : (n : ℕ) → n < 256 ^ 32 → decode_int (b64url_encode (pad_to_32 (to_bytes 32 n))) ≡ ok n
unfolding decode_int
coordinate n h = rw (pad_to_32_id (to_bytes 32 n) (length-to_bytes 32 n)) (
    rw (b64url_decode-b64url_encode (to_bytes 32 n) (to_bytes-AreBytes 32 n))
      (rw (from_bytes-to_bytes 32 n h)))

-- The JWK of a public key is read back as the key with the same coordinates.
pub jwk_to_ec_public_key-ec_public_key_to_jwk :
    (crypto : Crypto) (x y : ℕ)
    → x < 256 ^ 32
    → y < 256 ^ 32
    → jwk_to_ec_public_key crypto (ec_public_key_to_jwk x y) ≡ crypto.ec_public_key x y
unfolding jwk_to_ec_public_key ec_public_key_to_jwk string_eq
jwk_to_ec_public_key-ec_public_key_to_jwk crypto x y hx hy =
    rw (coordinate x hx) (rw (coordinate y hy))
