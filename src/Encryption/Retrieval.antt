-- ===== src/Encryption/Retrieval.antt =====
-- `get_key`, its retry through the KMS, and the decryption of texts, of
-- `src/webex_kms_sdk/encryption.py`.
pub mod Laws
use webex_kms_sdk.Base.{
  ℕ, String, ◌<>◌, Bool, true, false, Option, none, some, ◌==◌, string_eq, nat_eq, if◌then◌else◌,
}
use webex_kms_sdk.Dict.{lookup, insert, erase}
use webex_kms_sdk.Number.{Bytes}
use webex_kms_sdk.Exceptions.{
  Exception, exception_text, is_exception, kms_protocol_error, value_error, Result, ok, err, Action,
  and_then, bind_result,
}
use webex_kms_sdk.Text.{nonempty}
use webex_kms_sdk.Json.{Python}
use webex_kms_sdk.Models.Jwk.{Key, symmetric_key}
use webex_kms_sdk.Core.{CoreHttpClient}
use webex_kms_sdk.Config.{Config}
use webex_kms_sdk.Encryption.Uri.{parse_kms_uri}
use webex_kms_sdk.Encryption.Base64.{b64url_decode}
use webex_kms_sdk.Encryption.Crypto.{Crypto, unwrap_with_shared_secret}
use webex_kms_sdk.Encryption.Identity.{is_ecdh_session_error}
use webex_kms_sdk.Encryption.State.{EcdhContext, EncryptionClient}
use webex_kms_sdk.Encryption.Session.{Session, World, on_client, tick, finally}
use webex_kms_sdk.Encryption.Kms.{get_or_create_ecdh, invalidate_ecdh, do_kms_retrieve}

-- `except Exception as err: …`, with what the handler does.
abbrev pub on_exception :
    {A : Type 0} → Result A × Session → (Exception → Action Session A) → Result A × Session
on_exception (ok a, s) handle = (ok a, s)
on_exception (err e, s) handle = if is_exception e then handle e s else (err e, s)

abbrev pub retry_failed : Exception → Exception → Exception
retry_failed original retry = kms_protocol_error (
    "retry KMS retrieve failed: "
    <> (exception_text retry <> (" (original: " <> (exception_text original <> ")"))))

-- The entry of a task is cleared if it is still the one of this task.
abbrev pub clear_inflight : String → ℕ → EncryptionClient → EncryptionClient
clear_inflight key_uri task c = elim (lookup key_uri c.inflight_keys) [
  | none ↦ c
  | some other ↦
      if other == task then record c { inflight_keys = erase key_uri c.inflight_keys } else c
]

module _ (py : Python) (crypto : Crypto) (world : World) (core : CoreHttpClient) where
  -- The second attempt of a retrieval, after a failure.
  abbrev pub retry_retrieve : String → Exception → EcdhContext → Action Session Key
  retry_retrieve key_uri original context s =
      on_exception (do_kms_retrieve py crypto world core key_uri context s)
        (λ retry t. (err (retry_failed original retry), t))

  -- What follows the first failure.
  abbrev pub recover : String → EcdhContext → Exception → Action Session Key
  recover key_uri context e s =
      if is_ecdh_session_error e
      then and_then
          (get_or_create_ecdh py crypto world core (invalidate_ecdh py crypto world core s))
          (retry_retrieve key_uri e)
      else retry_retrieve key_uri e context s

  -- `EncryptionClient._retrieve_key_via_ecdh`, which `_retrieve_key_from_kms` calls
  unfoldable pub retrieve_key_via_ecdh : String → Action Session Key
  retrieve_key_via_ecdh key_uri s =
      and_then (get_or_create_ecdh py crypto world core s) λ context t.
        on_exception (do_kms_retrieve py crypto world core key_uri context t)
          (recover key_uri context)

  -- `self._key_cache[key_uri] = key`, unless the cache is disabled
  abbrev pub store_key : String → Key → EncryptionClient → EncryptionClient
  store_key key_uri key c =
      if core.config.disable_key_cache
      then c
      else record c { key_cache = insert key_uri key c.key_cache }

  -- `EncryptionClient._retrieve_and_cache_key`
  unfoldable pub retrieve_and_cache_key : String → Action Session Key
  retrieve_and_cache_key key_uri s =
      and_then (retrieve_key_via_ecdh key_uri s)
        (λ key t. (ok key, on_client (store_key key_uri key) t))

  -- `self._key_cache.get(key_uri)`, unless the cache is disabled
  abbrev pub cached_key : String → EncryptionClient → Option Key
  cached_key key_uri c = if core.config.disable_key_cache then none else lookup key_uri c.key_cache

  -- A task is named by the tick at which it starts.
  abbrev pub start_task : String → Action Session Key
  start_task key_uri s =
      finally
        (retrieve_and_cache_key key_uri (
          tick (
            on_client (λ c. record c { inflight_keys = insert key_uri s.ticks c.inflight_keys })
              s)))
        (on_client (clear_inflight key_uri s.ticks))

  abbrev pub join_or_start : String → Option ℕ → Action Session Key
  join_or_start key_uri none s = start_task key_uri s
  join_or_start key_uri (some task) s =
      finally (world.join s.ticks task (tick s)) (on_client (clear_inflight key_uri task))

  abbrev pub retrieve_checked : String → Result (String × String) → Action Session Key
  retrieve_checked key_uri (err e) s = (err e, s)
  retrieve_checked key_uri (ok _) s =
      join_or_start key_uri (lookup key_uri s.client.inflight_keys) s

  -- `EncryptionClient.get_key`
  unfoldable pub get_key : String → Action Session Key
  get_key key_uri s = elim (cached_key key_uri s.client) [
    | some key ↦ (ok key, s)
    | none ↦ retrieve_checked key_uri (parse_kms_uri key_uri) s
  ]

  abbrev pub decrypt_with : String → Key → Result String
  decrypt_with ciphertext key =
      bind_result (symmetric_key py b64url_decode key.jwk)
        λ raw_key. bind_result (unwrap_with_shared_secret crypto ciphertext raw_key) py.decode

  -- `EncryptionClient.decrypt_text`
  unfoldable pub decrypt_text : String → String → Action Session String
  decrypt_text key_uri ciphertext s =
      if nonempty key_uri
      then if nonempty ciphertext
        then and_then (get_key key_uri s) (λ key t. (decrypt_with ciphertext key, t))
        else (err (value_error "ciphertext is required"), s)
      else (err (value_error "key URI is required"), s)

  -- `EncryptionClient.decrypt_message_content`
  unfoldable pub decrypt_message_content : String → String → Action Session String
  decrypt_message_content encryption_key_url encrypted_content s =
      if nonempty encryption_key_url
      then if nonempty encrypted_content
        then decrypt_text encryption_key_url encrypted_content s
        else (err (value_error "encrypted content is required"), s)
      else (err (value_error "encryption key URL is required"), s)
