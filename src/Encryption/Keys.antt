-- ===== src/Encryption/Keys.antt =====
-- The key conversions of `src/webex_kms_sdk/encryption.py`: EC and RSA keys from and to JWKs.
pub mod Laws
use webex_kms_sdk.Base.{
  ℕ, zero, suc, ◌+◌, ◌-◌, ◌*◌, ◌/◌, ◌%◌, ◌^◌, String, ◌<>◌, Bool, true, false, ◌&&◌, ◌||◌, not,
  Option, none, some, List, [], ◌∷◌, ◌++◌, ◌==◌, string_eq, eqb, ltb, leb, length, if◌then◌else◌,
}
use webex_kms_sdk.Number.{Bytes, decimal}
use webex_kms_sdk.Exceptions.{
  Result, ok, err, value_error, Exception, json_decode_error, bind_result,
}
use webex_kms_sdk.Text.{nonempty}
use webex_kms_sdk.Json.{
  Json, null, boolean, integer, float, string, array, object, Fields, Python, get, Items, nil, cons,
}
use webex_kms_sdk.Models.Jwk.{Jwk, no_jwk, jwk_from_dict}
use webex_kms_sdk.Encryption.Base64.{b64url_encode, b64url_decode}
use webex_kms_sdk.Encryption.Crypto.{
  Crypto, EcPrivateKey, RsaPublicKey, to_bytes, from_bytes, protected_header,
}

abbrev drop : ℕ → Bytes → Bytes
drop zero bs = bs
drop (suc n) [] = []
drop (suc n) (b ∷ bs) = drop n bs

abbrev zeros : ℕ → Bytes
zeros zero = []
zeros (suc n) = 0 ∷ zeros n

-- `_pad_to_32`. `data[-32:]` drops all bytes but the last 32.
unfoldable pub pad_to_32 : Bytes → Bytes
pad_to_32 bs = if leb 32 (length bs) then drop (length bs - 32) bs else zeros (32 - length bs) ++ bs

-- `n.bit_length()`. Each round halves, so n + 1 rounds are more than it makes.
bit_length_from : ℕ → ℕ → ℕ
bit_length_from zero n = 0
bit_length_from (suc fuel) n = elim (eqb n 0) [
  | true ↦ 0
  | false ↦ suc (bit_length_from fuel (n / 2))
]

unfoldable pub bit_length : ℕ → ℕ
unfolding bit_length_from
bit_length n = bit_length_from (suc n) n

-- `_int_to_b64url`
unfoldable pub int_to_b64url : ℕ → String
int_to_b64url value =
    let bytes = (bit_length value + 7) / 8 in
    b64url_encode (to_bytes (if leb 1 bytes then bytes else 1) value)

-- `ec_public_key_to_jwk`, of the coordinates
unfoldable pub ec_public_key_to_jwk : ℕ → ℕ → Jwk
ec_public_key_to_jwk x y = record no_jwk {
  kty = "EC";
  crv = "P-256";
  x = b64url_encode (pad_to_32 (to_bytes 32 x));
  y = b64url_encode (pad_to_32 (to_bytes 32 y));
}

-- `int.from_bytes(_b64url_decode(value), "big")`
unfoldable pub decode_int : String → Result ℕ
decode_int value = bind_result (b64url_decode value) (λ bs. ok (from_bytes 0 bs))

module _ (crypto : Crypto) where
  -- `wrap_with_rsa`
  unfoldable pub wrap_with_rsa : Bytes → RsaPublicKey → String → Result String
  wrap_with_rsa payload key kid =
      crypto.serialize payload (protected_header "RSA-OAEP" kid)
        (("kty", "RSA") ∷ ("n", int_to_b64url key.n) ∷ ("e", int_to_b64url key.e) ∷ [])

  -- `jwk_to_ec_public_key`
  unfoldable pub jwk_to_ec_public_key : Jwk → Result (ℕ × ℕ)
  jwk_to_ec_public_key j =
      if j.kty == "EC" && j.crv == "P-256"
      then bind_result (decode_int j.x)
          (λ x. bind_result (decode_int j.y) (λ y. crypto.ec_public_key x y))
      else err (value_error ("unsupported key type/curve: " <> (j.kty <> ("/" <> j.crv))))

  module _ (py : Python) where
    -- `jwk_to_rsa_public_key`
    unfoldable pub jwk_to_rsa_public_key : Jwk → Result RsaPublicKey
    jwk_to_rsa_public_key j =
        if j.kty == "RSA"
        then if nonempty j.n && nonempty j.e
          then bind_result (decode_int j.n) (λ n. bind_result (decode_int j.e) λ e.
            if ltb (bit_length n) 2048
            then err
                (value_error ("RSA key size " <> (decimal (bit_length n) <> " bits is too small")))
            else crypto.rsa_public_key e n)
          else err (value_error "RSA key missing modulus (n) or exponent (e)")
        else err (value_error ("key type is " <> (py.quoted j.kty <> ", expected RSA")))

    abbrev pub is_text : String → Json → Bool
    is_text s (string t) = t == s
    is_text s _ = false

    -- The RSA key that a JWK dict gives, with its key id.
    abbrev pub rsa_key_of : Fields → Result (RsaPublicKey × String)
    rsa_key_of fs =
        let key = jwk_from_dict py fs in
        bind_result (jwk_to_rsa_public_key key) (λ k. ok (k, key.kid))

    -- The loop over the entries of a JWKS: the first dict of type RSA.
    unfoldable pub first_rsa : Items → Result (RsaPublicKey × String)
    first_rsa nil = err (value_error "unable to parse RSA public key from KMS info response")
    first_rsa (cons (object fs) xs) =
        if is_text "RSA" (get "kty" fs) then rsa_key_of fs else first_rsa xs
    first_rsa (cons _ xs) = first_rsa xs

    abbrev pub jwks_entries : Json → Items
    jwks_entries (array xs) = xs
    jwks_entries _ = nil

    -- `parse_rsa_public_key_from_json`, after the text is parsed
    unfoldable pub rsa_from_candidate : Json → Result (RsaPublicKey × String)
    rsa_from_candidate (object fs) =
        if is_text "RSA" (get "kty" fs)
        then rsa_key_of fs
        else first_rsa (jwks_entries (get "keys" fs))
    rsa_from_candidate _ = err (value_error "unable to parse RSA public key from KMS info response")

    abbrev pub loaded_candidate : Result Json → Result (RsaPublicKey × String)
    loaded_candidate (ok v) = rsa_from_candidate v
    loaded_candidate (err (json_decode_error _)) =
        err (value_error "unable to parse RSA public key from KMS info response")
    loaded_candidate (err e) = err e

    -- `parse_rsa_public_key_from_json`
    unfoldable pub parse_rsa_public_key_from_json : Json → Result (RsaPublicKey × String)
    parse_rsa_public_key_from_json (string s) = loaded_candidate (py.loads s)
    parse_rsa_public_key_from_json v = rsa_from_candidate v
