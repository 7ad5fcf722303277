-- ===== src/Encryption/Messages.antt =====
-- `EncryptionClient.process_kms_messages` of `src/webex_kms_sdk/encryption.py`.
pub mod Delivery
pub mod Loop
pub mod Malformed
pub mod Registration
pub mod Skipped
use webex_kms_sdk.Base.{
  ℕ, String, Bool, true, false, Option, none, some, List, [], ◌∷◌, string_eq, nat_eq, eqb,
  if◌then◌else◌,
}
use webex_kms_sdk.Dict.{Dict, lookup, insert, erase, values}
use webex_kms_sdk.Number.{Bytes}
use webex_kms_sdk.Exceptions.{
  Exception, json_decode_error, Result, ok, err, Action, bind_result, and_then,
}
use webex_kms_sdk.Text.{nonempty, cut, occurrences, startswith}
use webex_kms_sdk.Json.{Json, object, Fields, Python}
use webex_kms_sdk.Models.KmsMessage.{KmsMessage, message_from_dict}
use webex_kms_sdk.Models.Jwk.{Key}
use webex_kms_sdk.Encryption.Base64.{b64url_decode}
use webex_kms_sdk.Encryption.Crypto.{
  Crypto, EcPrivateKey, unwrap_with_shared_secret, decrypt_ecdh_jwe,
}
use webex_kms_sdk.Encryption.State.{
  EcdhContext, FutureState, waiting, resolved, PendingRequest, EncryptionClient, cache_key,
  cache_keys, is_waiting,
}

-- What the call reads before its loop: the context, and the private keys of the pending requests.
pub record Snapshot : Type 0 where
  pub context : Option EcdhContext
  pub private_keys : List EcPrivateKey

abbrev pub private_keys_of : List PendingRequest → List EcPrivateKey
private_keys_of [] = []
private_keys_of (p ∷ ps) = elim p.ecdh_private_key [
  | none ↦ private_keys_of ps
  | some key ↦ key ∷ private_keys_of ps
]

abbrev pub snapshot : EncryptionClient → Snapshot
snapshot c = record {
  context = c.ecdh_context;
  private_keys = private_keys_of (values c.pending_requests);
}

-- `message.split(".", 2)[1]`, of a message with two dots
abbrev pub second_part : String → String
second_part s = elim (cut "." s) [
  | none ↦ ""
  | some (_, rest) ↦ elim (cut "." rest) [ none ↦ rest | some (part, _) ↦ part ]
]

abbrev pub ok_or_empty : Result Bytes → Bytes
ok_or_empty (ok bs) = bs
ok_or_empty (err _) = []

abbrev pub ok_or_none {ℓ} : {A : Type ℓ} → Result A → Option A
ok_or_none (ok a) = some a
ok_or_none (err _) = none

abbrev pub or_else {ℓ} : {A : Type ℓ} → Option A → Option A → Option A
or_else none b = b
or_else (some a) _ = some a

module _ (py : Python) (crypto : Crypto) where
  -- The plaintext and the message that a JWS-like envelope holds, by its payload: `payload` starts
  -- with `{`, or is some other text, or is empty.
  abbrev pub by_payload : String → Bytes → Option Bytes × String
  by_payload message [] = (none, message)
  by_payload message (b ∷ bs) =
      if eqb b b'{' then (some (b ∷ bs), message) else (none, py.decode_ignore (b ∷ bs))

  -- The first step: messages of two dots.
  unfoldable pub open_envelope : String → Option Bytes × String
  open_envelope message =
      if eqb (occurrences "." message) 2
      then by_payload message (ok_or_empty (b64url_decode (second_part message)))
      else (none, message)

  -- The first private key that decrypts.
  unfoldable pub try_private_keys : String → List EcPrivateKey → Option Bytes
  try_private_keys message [] = none
  try_private_keys message (key ∷ keys) =
      or_else (ok_or_none (decrypt_ecdh_jwe crypto message key)) (try_private_keys message keys)

  abbrev pub try_context : String → Option EcdhContext → Option Bytes
  try_context message none = none
  try_context message (some context) =
      ok_or_none (unwrap_with_shared_secret crypto message context.shared_secret)

  -- The second step: messages of four dots, by the context and then by the pending keys.
  unfoldable pub decrypt_message : Snapshot → String → Option Bytes
  decrypt_message s message =
      if eqb (occurrences "." message) 4
      then or_else (try_context message s.context) (try_private_keys message s.private_keys)
      else none

  -- The third step: plain JSON.
  abbrev pub plain_json : String → Option Bytes
  plain_json message = if startswith message "{" then some (py.encode message) else none

  -- The plaintext of a message, if there is one.
  unfoldable pub plaintext_of : Snapshot → String → Option Bytes
  plaintext_of s raw =
      let (plaintext, message) = open_envelope raw in
      or_else plaintext (or_else (decrypt_message s message) (plain_json message))

  -- A plaintext that is skipped gives `none`; what is neither skipped nor read is raised.
  abbrev pub parsed_message : Result Json → Result (Option KmsMessage)
  parsed_message (ok (object fs)) = bind_result (message_from_dict py fs) (λ m. ok (some m))
  parsed_message (ok _) = ok none
  parsed_message (err (json_decode_error _)) = ok none
  parsed_message (err e) = err e

  -- A KMS message with the plaintext that it was parsed from.
  unfoldable pub read_message : Snapshot → String → Result (Option (KmsMessage × Bytes))
  read_message s raw =
      if nonempty raw
      then elim (plaintext_of s raw) [
        | none ↦ ok none
        | some plaintext ↦
            bind_result (parsed_message (py.loads_bytes plaintext))
              λ o. elim o [ none ↦ ok none | some m ↦ ok (some (m, plaintext)) ]
      ]
      else ok none

  -- Caching of what a message carries.
  unfoldable pub cache_message : KmsMessage → EncryptionClient → EncryptionClient
  cache_message m c = cache_keys m.keys (elim m.key [ none ↦ c | some key ↦ cache_key key c ])

  -- `self._pending_requests.pop(request_id, None)` and what follows.
  abbrev pub resolve :
      Option PendingRequest → KmsMessage → Bytes → EncryptionClient → EncryptionClient
  resolve none m plaintext c = cache_message m c
  resolve (some p) m plaintext c =
      let c' = record c { pending_requests = erase m.request_id c.pending_requests } in
      if is_waiting (lookup p.future c.futures)
      then record c' { futures = insert p.future (resolved plaintext) c.futures }
      else cache_message m c'

  -- The effect of one message.
  unfoldable pub deliver : KmsMessage → Bytes → EncryptionClient → EncryptionClient
  deliver m plaintext c =
      if nonempty m.request_id
      then resolve (lookup m.request_id c.pending_requests) m plaintext c
      else cache_message m c

  -- One round of the loop.
  abbrev pub apply_read : Result (Option (KmsMessage × Bytes)) → Action EncryptionClient (Unit {0})
  apply_read (err e) c = (err e, c)
  apply_read (ok none) c = (ok tt, c)
  apply_read (ok (some (m, plaintext))) c = (ok tt, deliver m plaintext c)

  unfoldable pub process_from : Snapshot → List String → Action EncryptionClient (Unit {0})
  process_from s [] c = (ok tt, c)
  process_from s (raw ∷ messages) c =
      and_then (apply_read (read_message s raw) c) (λ _. process_from s messages)

  -- `EncryptionClient.process_kms_messages`
  unfoldable pub process_kms_messages : List String → Action EncryptionClient (Unit {0})
  process_kms_messages messages c = process_from (snapshot c) messages c
