-- ===== src/Encryption/Crypto.antt =====
-- The cryptographic libraries as the program calls them, and the wrappers of
-- `src/webex_kms_sdk/encryption.py` around them.
use webex_kms_sdk.Base.{ℕ, zero, suc, ◌+◌, ◌*◌, ◌/◌, ◌%◌, String, [], ◌∷◌, ◌++◌, if◌then◌else◌}
use webex_kms_sdk.Dict.{Dict}
use webex_kms_sdk.Number.{Bytes}
use webex_kms_sdk.Exceptions.{Result}
use webex_kms_sdk.Text.{nonempty}
use webex_kms_sdk.Encryption.Base64.{b64url_encode}

-- The numbers of an EC private key of the curve P-256.
pub record EcPrivateKey : Type 0 where
  pub x : ℕ
  pub y : ℕ
  pub private_value : ℕ

-- The numbers of an RSA public key.
pub record RsaPublicKey : Type 0 where
  pub n : ℕ
  pub e : ℕ

-- The parameters of a JOSE key, `jose_jwk.JWK(**params)`, and of a protected header.
abbrev pub Params : Type 0
Params = Dict String String

pub record Crypto : Type 0 where
  -- `JWE().deserialize(token, key=key)` and its payload, as bytes
  pub deserialize : String → Params → Result Bytes
  -- `JWE(payload, protected)`, `add_recipient(key)` and `serialize(compact=True)`
  pub serialize : Bytes → Params → Params → Result String
  -- `EllipticCurvePublicNumbers(x, y, SECP256R1()).public_key()`, if the point is on the curve
  pub ec_public_key : ℕ → ℕ → Result (ℕ × ℕ)
  -- `key.exchange(ECDH(), public_key)`
  pub exchange : EcPrivateKey → ℕ × ℕ → Result Bytes
  -- `HKDF(SHA256(), 32, None, None).derive(secret)`
  pub hkdf : Bytes → Bytes
  -- `RSAPublicNumbers(e, n).public_key()`
  pub rsa_public_key : ℕ → ℕ → Result RsaPublicKey

-- `n.to_bytes(length, "big")`, of a number that fits.
unfoldable pub to_bytes : ℕ → ℕ → Bytes
to_bytes zero n = []
to_bytes (suc k) n = to_bytes k (n / 256) ++ (n % 256 ∷ [])

-- `int.from_bytes(bs, "big")`, after the bytes of `acc`.
unfoldable pub from_bytes : ℕ → Bytes → ℕ
from_bytes acc [] = acc
from_bytes acc (b ∷ bs) = from_bytes (acc * 256 + b) bs

-- `_ec_private_key_to_jwk`
unfoldable pub ec_private_key_to_jwk : EcPrivateKey → Params
ec_private_key_to_jwk key =
    ("kty", "EC")
    ∷ ("crv", "P-256")
    ∷ ("x", b64url_encode (to_bytes 32 key.x))
    ∷ ("y", b64url_encode (to_bytes 32 key.y))
    ∷ ("d", b64url_encode (to_bytes 32 key.private_value))
    ∷ []

-- `JWK(kty="oct", k=_b64url_encode(shared_secret))`
abbrev pub oct_key : Bytes → Params
oct_key secret = ("kty", "oct") ∷ ("k", b64url_encode secret) ∷ []

-- The protected header, with the key id if there is one.
abbrev pub protected_header : String → String → Params
protected_header alg kid =
    ("alg", alg) ∷ ("enc", "A256GCM") ∷ (if nonempty kid then ("kid", kid) ∷ [] else [])

module _ (crypto : Crypto) where
  -- `wrap_with_shared_secret`
  unfoldable pub wrap_with_shared_secret : Bytes → Bytes → String → Result String
  wrap_with_shared_secret payload shared_secret kid =
      crypto.serialize payload (protected_header "dir" kid) (oct_key shared_secret)

  -- `unwrap_with_shared_secret`
  unfoldable pub unwrap_with_shared_secret : String → Bytes → Result Bytes
  unwrap_with_shared_secret token shared_secret = crypto.deserialize token (oct_key shared_secret)

  -- `_decrypt_ecdh_jwe`
  unfoldable pub decrypt_ecdh_jwe : String → EcPrivateKey → Result Bytes
  decrypt_ecdh_jwe token private_key = crypto.deserialize token (ec_private_key_to_jwk private_key)
