-- ===== src/Tests/Messages.antt =====
-- The theorems on KMS messages and on their responses at concrete inputs.
use webex_kms_sdk.Base.{
  ap, arith, some-inj, ℕ, String, ◌<>◌, ◌≡◌, ◌↔◌, ◌⊎◌, refl, sym, ◌∙◌, true, false, inl, inr,
  Bool-cases, ==→≡, string_eq, nat_eq, ◌==◌, Option, none, some, List, [], ◌∷◌,
}
use webex_kms_sdk.Dict.{lookup, lookup-cons}
use webex_kms_sdk.Exceptions.{type_error, ok, err}
use webex_kms_sdk.Json.{Json, object, Python}
use webex_kms_sdk.Models.Jwk.{Key}
use webex_kms_sdk.Models.KmsMessage.{KmsMessage, is_success}
use webex_kms_sdk.Encryption.State.{register_pending_request, cancelled, EncryptionClient}
use webex_kms_sdk.Encryption.Messages.{process_kms_messages, plaintext_of, snapshot}
use webex_kms_sdk.Encryption.Messages.Delivery.{Settled, IsOpen}
use webex_kms_sdk.Encryption.Messages.Loop.{
  IsAnswered, process_kms_messages_correlates, process_kms_messages-Settled,
}
use webex_kms_sdk.Encryption.Messages.Registration.{
  AreNumbered, new_request, register_pending_request-IsOpen,
}
use webex_kms_sdk.Encryption.Messages.Malformed.{process_kms_messages_malformed}
use webex_kms_sdk.Encryption.Messages.Skipped.{
  IsUndecryptable, without_key, nothing_pending, skipped, same, no_message,
  process_kms_messages-Thinned,
}
use webex_kms_sdk.Encryption.Response.{parse_key_from_payload, process_key_response_jwes}
use webex_kms_sdk.Encryption.Response.Laws.{
  process_key_response_jwes_first, IsGrant, parse_key_from_payload_iff,
}
use webex_kms_sdk.Tests.Fixtures.{
  malformed_fields, toy_python, toy_crypto, toy_pending, waiting_client, toy_key,
}

waiting_client-IsOpen : IsOpen "r1" toy_pending waiting_client
unfolding webex_kms_sdk.Dict.lookup webex_kms_sdk.Base.string_eq webex_kms_sdk.Base.nat_eq
waiting_client-IsOpen = record {
  listed = refl;
  open_future = refl;
  alone = λ s q h e. elim (Bool-cases (s == "r1")) [
    | inl t ↦ ==→≡ s "r1" t
    | inr f ↦ absurd (let k : none ≡ some q = rw f at h in cc)
  ];
}

process_kms_messages_correlates_example :
    let c = (process_kms_messages toy_python toy_crypto ("{}" ∷ []) waiting_client).1 in
    IsOpen "r1" toy_pending c
    ⊎ IsAnswered toy_python toy_crypto ("{}" ∷ []) waiting_client "r1" toy_pending c
process_kms_messages_correlates_example =
    process_kms_messages_correlates toy_python toy_crypto ("{}" ∷ []) waiting_client "r1"
      toy_pending waiting_client-IsOpen

abbrev cancelled_client : EncryptionClient
cancelled_client = record waiting_client { futures = (0, cancelled) ∷ [] }

cancelled_client-Settled : Settled 0 cancelled cancelled_client
unfolding webex_kms_sdk.Dict.lookup webex_kms_sdk.Base.nat_eq
cancelled_client-Settled = (refl, refl)

process_kms_messages-Settled_example :
    Settled 0 cancelled (process_kms_messages toy_python toy_crypto ("{}" ∷ []) cancelled_client).1
process_kms_messages-Settled_example =
    process_kms_messages-Settled toy_python toy_crypto ("{}" ∷ []) cancelled_client 0 cancelled
      cancelled_client-Settled

-- Every payload is the malformed message.
abbrev odd_python : Python
odd_python = record toy_python { loads_bytes = λ bs. ok (object malformed_fields) }

enveloped_plaintext :
    plaintext_of odd_python toy_crypto (snapshot waiting_client) "{}" ≡ some (b'{' ∷ b'}' ∷ [])
unfolding plaintext_of webex_kms_sdk.Encryption.Messages.open_envelope
    webex_kms_sdk.Encryption.Messages.decrypt_message webex_kms_sdk.Text.occurrences
    webex_kms_sdk.Text.startswith webex_kms_sdk.Text.strip_prefix
enveloped_plaintext = refl

process_kms_messages_malformed_example :
    process_kms_messages odd_python toy_crypto ("{}" ∷ "{}" ∷ []) waiting_client
    ≡ (err (type_error "object is not iterable"), waiting_client)
unfolding webex_kms_sdk.Json.get webex_kms_sdk.Base.string_eq
process_kms_messages_malformed_example =
    process_kms_messages_malformed odd_python toy_crypto "{}" ("{}" ∷ []) waiting_client
      (b'{' ∷ b'}' ∷ []) refl enveloped_plaintext malformed_fields 0 refl refl refl

-- A JWE that nothing decrypts.
abbrev opaque_jwe : String
opaque_jwe = "a.b.c.d.e"

opaque_jwe-IsUndecryptable : IsUndecryptable toy_crypto opaque_jwe waiting_client
unfolding webex_kms_sdk.Text.occurrences webex_kms_sdk.Text.startswith
    webex_kms_sdk.Text.strip_prefix
opaque_jwe-IsUndecryptable = record {
  four_dots = refl;
  no_json = refl;
  by_context = λ x b h. absurd (cc);
  by_requests = without_key toy_pending [] refl nothing_pending;
}

process_kms_messages-Thinned_example :
    process_kms_messages toy_python toy_crypto ("{}" ∷ opaque_jwe ∷ "{}" ∷ []) waiting_client
    ≡ process_kms_messages toy_python toy_crypto ("{}" ∷ "{}" ∷ []) waiting_client
process_kms_messages-Thinned_example =
    process_kms_messages-Thinned toy_python toy_crypto waiting_client
      ("{}" ∷ opaque_jwe ∷ "{}" ∷ []) ("{}" ∷ "{}" ∷ [])
      (same "{}" (opaque_jwe ∷ "{}" ∷ []) ("{}" ∷ []) (
        skipped opaque_jwe ("{}" ∷ []) ("{}" ∷ []) opaque_jwe-IsUndecryptable
          (same "{}" [] [] no_message)))

process_key_response_jwes_first_example :
    process_key_response_jwes toy_python toy_crypto (7 ∷ []) ("" ∷ "jwe" ∷ "more" ∷ [])
    ≡ parse_key_from_payload toy_python toy_crypto (b'{' ∷ [])
unfolding webex_kms_sdk.Encryption.Crypto.unwrap_with_shared_secret
process_key_response_jwes_first_example =
    process_key_response_jwes_first toy_python toy_crypto (7 ∷ []) ("" ∷ []) ("more" ∷ []) "jwe"
      (b'{' ∷ []) refl refl

toy_payload_run : parse_key_from_payload toy_python toy_crypto (b'{' ∷ []) ≡ ok toy_key
unfolding parse_key_from_payload is_success webex_kms_sdk.Models.KmsMessage.message_from_dict
    webex_kms_sdk.Models.KmsMessage.optional_key webex_kms_sdk.Models.KmsMessage.keys_from
    webex_kms_sdk.Models.KmsMessage.optional_jwk webex_kms_sdk.Models.Jwk.key_from_dict
    webex_kms_sdk.Models.Jwk.jwk_from_dict webex_kms_sdk.Json.get webex_kms_sdk.Json.iterate
    webex_kms_sdk.Json.dicts webex_kms_sdk.Json.text_or_empty webex_kms_sdk.Json.to_text
    webex_kms_sdk.Json.dict_or_empty webex_kms_sdk.Base.string_eq
toy_payload_run = refl

parse_key_from_payload_iff_example :
    (parse_key_from_payload toy_python toy_crypto (b'{' ∷ []) ≡ ok toy_key)
    ↔ IsGrant toy_python (b'{' ∷ []) toy_key
parse_key_from_payload_iff_example =
    parse_key_from_payload_iff toy_python toy_crypto (b'{' ∷ []) toy_key

-- A second registration of an identifier.
waiting_client-AreNumbered : AreNumbered waiting_client
unfolding webex_kms_sdk.Dict.lookup webex_kms_sdk.Base.string_eq
waiting_client-AreNumbered = λ s q h. elim (Bool-cases (s == "r1")) [
  | inl t ↦
      let e : toy_pending ≡ q = some-inj toy_pending q (rw t at h) in
      omega (arith, ap (λ p. p.future) e)
  | inr f ↦ absurd (let k : none ≡ some q = rw f at h in cc)
]

register_pending_request-IsOpen_example :
    IsOpen "r1"
      (new_request "r1" none waiting_client)
      (register_pending_request "r1" none waiting_client).1
    × AreNumbered (register_pending_request "r1" none waiting_client).1
register_pending_request-IsOpen_example =
    register_pending_request-IsOpen "r1" none waiting_client waiting_client-AreNumbered
