-- ===== src/Tests/Wire.antt =====
-- The theorems on encodings, keys, URIs and errors at concrete inputs.
use webex_kms_sdk.Base.{
  String, ◌<>◌, string_eq, ◌≡◌, ◌↔◌, refl, true, false, Option, none, some, [], ◌∷◌, arith,
}
use webex_kms_sdk.Dict.{lookup}
use webex_kms_sdk.Exceptions.{Exception, value_error, ok, err, is_value_error}
use webex_kms_sdk.Models.Jwk.{jwk_from_dict, jwk_to_dict, text_fields}
use webex_kms_sdk.Models.Jwk.Laws.{jwk_from_dict-jwk_to_dict, lookup-jwk_to_dict_public}
use webex_kms_sdk.Encryption.Base64.{b64url_encode, b64url_decode}
use webex_kms_sdk.Encryption.Base64.Roundtrip.{b64url_decode-b64url_encode}
use webex_kms_sdk.Encryption.Keys.{ec_public_key_to_jwk, jwk_to_ec_public_key}
use webex_kms_sdk.Encryption.Keys.Laws.{jwk_to_ec_public_key-ec_public_key_to_jwk}
use webex_kms_sdk.Encryption.Uri.{parse_kms_uri}
use webex_kms_sdk.Encryption.Uri.Laws.{IsKmsUri, parse_kms_uri_iff, parse_kms_uri_error}
use webex_kms_sdk.Encryption.Identity.{decode_webex_id}
use webex_kms_sdk.Encryption.Identity.Laws.{decode_webex_id_idempotent}
use webex_kms_sdk.Tests.Fixtures.{toy_python, toy_crypto, toy_jwk}

base64_test : b64url_encode (1 ∷ 2 ∷ 255 ∷ 77 ∷ []) ≡ "AQL_TQ"
unfolding b64url_encode webex_kms_sdk.Encryption.Base64.symbol
base64_test = refl

b64url_decode-b64url_encode_example :
    b64url_decode (b64url_encode (1 ∷ 2 ∷ 255 ∷ 77 ∷ [])) ≡ ok (1 ∷ 2 ∷ 255 ∷ 77 ∷ [])
b64url_decode-b64url_encode_example =
    b64url_decode-b64url_encode (1 ∷ 2 ∷ 255 ∷ 77 ∷ [])
      (omega arith, (omega arith, (omega arith, (omega arith, tt))))

ec_public_key_example : jwk_to_ec_public_key toy_crypto (ec_public_key_to_jwk 258 7) ≡ ok (258, 7)
ec_public_key_example =
    jwk_to_ec_public_key-ec_public_key_to_jwk toy_crypto 258 7 (omega arith) (omega arith)

jwk_from_dict-jwk_to_dict_example :
    jwk_from_dict toy_python (text_fields (jwk_to_dict true toy_jwk)) ≡ toy_jwk
jwk_from_dict-jwk_to_dict_example = jwk_from_dict-jwk_to_dict toy_python toy_jwk

-- The secret of a symmetric key is written without the private fields too.
lookup-jwk_to_dict_public_example :
    lookup "k" (jwk_to_dict false toy_jwk) ≡ lookup "k" (jwk_to_dict true toy_jwk)
unfolding webex_kms_sdk.Base.string_eq
lookup-jwk_to_dict_public_example = lookup-jwk_to_dict_public toy_jwk "k"

parse_kms_uri_iff_example :
    (parse_kms_uri "kms://a.com/keys/1" ≡ ok ("a.com", "keys/1"))
    ↔ IsKmsUri "kms://a.com/keys/1" "a.com" "keys/1"
parse_kms_uri_iff_example = parse_kms_uri_iff "kms://a.com/keys/1" "a.com" "keys/1"

abbrev no_prefix : Exception
no_prefix = value_error "invalid KMS URI format (missing prefix): x"

no_prefix_run : parse_kms_uri "x" ≡ err no_prefix
unfolding parse_kms_uri webex_kms_sdk.Text.strip_prefix
no_prefix_run = refl

parse_kms_uri_error_example : is_value_error no_prefix ≡ true
parse_kms_uri_error_example = parse_kms_uri_error "x" no_prefix no_prefix_run

decode_webex_id_idempotent_example :
    decode_webex_id toy_python (decode_webex_id toy_python "AQID")
    ≡ decode_webex_id toy_python "AQID"
decode_webex_id_idempotent_example = decode_webex_id_idempotent toy_python "AQID"
