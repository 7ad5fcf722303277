-- ===== src/Encryption/Response.antt =====
-- How `src/webex_kms_sdk/encryption.py` reads the KMS answers to a create and to a retrieve request.
pub mod Laws
use webex_kms_sdk.Base.{
  ℕ, String, ◌<>◌, Bool, true, false, Option, none, some, List, [], ◌∷◌, ◌==◌, string_eq,
  if◌then◌else◌,
}
use webex_kms_sdk.Number.{Bytes}
use webex_kms_sdk.Exceptions.{
  Exception, json_decode_error, kms_protocol_error, Result, ok, err, bind_result,
}
use webex_kms_sdk.Json.{Json, object, Fields, Python, to_text}
use webex_kms_sdk.Models.Jwk.{Jwk, Key}
use webex_kms_sdk.Models.KmsMessage.{KmsMessage, message_from_dict, is_success}
use webex_kms_sdk.Encryption.Crypto.{
  Crypto, EcPrivateKey, unwrap_with_shared_secret, decrypt_ecdh_jwe,
}
use webex_kms_sdk.Encryption.Keys.{jwk_to_ec_public_key}
use webex_kms_sdk.Encryption.State.{EcdhContext}

abbrev pub first_key : List Key → Result Key
first_key [] = err (kms_protocol_error "no key found in KMS response")
first_key (k ∷ _) = ok k

-- The single key, or the first of the list.
abbrev pub key_of_message : KmsMessage → Result Key
key_of_message m = elim m.key [ some k ↦ ok k | none ↦ first_key m.keys ]

-- `extract_server_ec_key`
abbrev pub ec_only : Option Jwk → Option Jwk
ec_only none = none
ec_only (some j) = if j.kty == "EC" then some j else none

abbrev pub jwk_of_key : Option Key → Option Jwk
jwk_of_key none = none
jwk_of_key (some k) = some k.jwk

unfoldable pub extract_server_ec_key : KmsMessage → Option Jwk
extract_server_ec_key m = elim (ec_only (jwk_of_key m.key)) [
  | some j ↦ some j
  | none ↦ ec_only m.jwk
]

module _ (py : Python) (crypto : Crypto) where
  abbrev pub message_of_json : Json → Result KmsMessage
  message_of_json (object fs) = message_from_dict py fs
  message_of_json _ = err (kms_protocol_error "KMS response payload is not an object")

  -- `EncryptionClient._parse_key_from_payload`
  unfoldable pub parse_key_from_payload : Bytes → Result Key
  parse_key_from_payload payload = bind_result (py.loads_bytes payload) λ parsed.
      bind_result (message_of_json parsed) λ response. bind_result (is_success response) λ success.
        if success
        then key_of_message response
        else err
            (kms_protocol_error ("KMS request failed with status: " <> to_text py response.status))

  -- `EncryptionClient._process_key_response_jwes`, with the shared secret of the context
  unfoldable pub process_key_response_jwes : Bytes → List String → Result Key
  process_key_response_jwes secret [] = err (kms_protocol_error "no key found in KMS response JWEs")
  process_key_response_jwes secret (jwe ∷ jwes) =
      let later = process_key_response_jwes secret jwes in
      elim (unwrap_with_shared_secret crypto jwe secret) [
        | ok payload ↦ parse_key_from_payload payload
        | err _ ↦ later
      ]

  -- One plaintext of `decrypt_ecdh_response`: `none` where the loop goes on.
  abbrev pub ecdh_candidate : Result Json → Option (Result KmsMessage)
  ecdh_candidate (ok (object fs)) = some (message_from_dict py fs)
  ecdh_candidate (ok _) = none
  ecdh_candidate (err (json_decode_error _)) = none
  ecdh_candidate (err e) = some (err e)

  -- `decrypt_ecdh_response`
  unfoldable pub decrypt_ecdh_response : EcPrivateKey → List String → Result KmsMessage
  decrypt_ecdh_response key [] = err (kms_protocol_error "failed to decrypt ECDH response from KMS")
  decrypt_ecdh_response key (jwe ∷ jwes) =
      let later = decrypt_ecdh_response key jwes in
      elim (decrypt_ecdh_jwe crypto jwe key) [
        | err _ ↦ later
        | ok plaintext ↦ elim (ecdh_candidate (py.loads_bytes plaintext)) [
          | none ↦ later
          | some r ↦ r
        ]
      ]

  -- `derive_shared_secret`
  unfoldable pub derive_shared_secret : KmsMessage → EcPrivateKey → Result Bytes
  derive_shared_secret response key = elim (extract_server_ec_key response) [
    | none ↦ err (kms_protocol_error "KMS ECDH response missing EC public key")
    | some j ↦
        bind_result (jwk_to_ec_public_key crypto j) λ server.
          bind_result (crypto.exchange key server) λ raw_secret. ok (crypto.hkdf raw_secret)
  ]
