-- ===== src/Encryption/Kms.antt =====
-- The requests to the KMS of `src/webex_kms_sdk/encryption.py`: user and cluster metadata, the
-- ECDH exchange and its cached context, and one retrieval through a context.
pub mod Pending
pub mod Context
pub mod Refused
mod Requests
unfoldable pub use Requests.*
use webex_kms_sdk.Base.{
  ℕ, ◌+◌, String, ◌<>◌, Bool, true, false, Option, none, some, List, [], ◌∷◌, map, eqb, ltb,
  is_empty, string_eq, if◌then◌else◌,
}
use webex_kms_sdk.Number.{Bytes, decimal, seconds}
use webex_kms_sdk.Exceptions.{
  Exception, kms_protocol_error, attribute_error, Result, ok, err, Action, and_then, bind_result,
}
use webex_kms_sdk.Text.{nonempty, removeprefix}
use webex_kms_sdk.Json.{
  Json, object, string, array, Fields, end, field, Python, get, iterate, from_list, to_text,
  text_or_empty,
}
use webex_kms_sdk.Models.Jwk.{Key, jwk_to_dict, text_fields}
use webex_kms_sdk.Models.KmsMessage.{KmsMessage, message_from_dict}
use webex_kms_sdk.Http.{Response}
use webex_kms_sdk.Core.{CoreHttpClient}
use webex_kms_sdk.Config.{Config}
use webex_kms_sdk.Errors.{api_error_from_response}
use webex_kms_sdk.Encryption.Uri.{parse_kms_uri, kms_cluster_from_domain}
use webex_kms_sdk.Encryption.Crypto.{Crypto, EcPrivateKey, RsaPublicKey, wrap_with_shared_secret}
use webex_kms_sdk.Encryption.Keys.{
  wrap_with_rsa, ec_public_key_to_jwk, parse_rsa_public_key_from_json,
}
use webex_kms_sdk.Encryption.Identity.{generate_request_id, decode_webex_id}
use webex_kms_sdk.Encryption.Response.{
  parse_key_from_payload, process_key_response_jwes, decrypt_ecdh_response, derive_shared_secret,
}
use webex_kms_sdk.Encryption.State.{
  EcdhContext, EncryptionClient, get_client_id, register_pending_request,
  unregister_pending_request,
}
use webex_kms_sdk.Encryption.Session.{
  Session, World, on_client, tick, finally, await_future, request,
}

module _ (py : Python) (crypto : Crypto) (world : World) (core : CoreHttpClient) where
  abbrev pub ecdh_request : EncryptionClient → String → EcPrivateKey → String → Json
  ecdh_request c request_id key user_id = object (
      field "client" (client_block (get_client_id c) (decode_webex_id py user_id) core.access_token)
        (field "requestId" (string request_id) (
          field "method" (string "create") (
            field "uri" (string "/ecdhe") (
              field "jwk"
                (object (text_fields (jwk_to_dict false (ec_public_key_to_jwk key.x key.y))))
                end)))))

  abbrev pub retrieve_request : EncryptionClient → String → String → String → Json
  retrieve_request c request_id key_uri user_id = object (
      field "client" (client_block (get_client_id c) (decode_webex_id py user_id) core.access_token)
        (field "requestId" (string request_id)
          (field "method" (string "retrieve") (field "uri" (string key_uri) end))))

  -- The answer: from the response where it holds messages, else from the future.
  abbrev pub answer_of :
      {A : Type 0}
      → ℕ
      → (List String → Result A)
      → (Bytes → Result A)
      → Option (List String)
      → Action Session A
  answer_of future now later (some (jwe ∷ jwes)) t = (now (jwe ∷ jwes), t)
  answer_of future now later _ t =
      and_then (await_future py crypto world core future t) (λ b u. (later b, u))

  -- Sends what was wrapped, and reads the answer.
  abbrev pub exchange_message :
      {A : Type 0}
      → Result String
      → String
      → ℕ
      → (List String → Result A)
      → (Bytes → Result A)
      → Action Session A
  exchange_message (err e) destination future now later s = (err e, s)
  exchange_message (ok wrapped) destination future now later s =
      and_then (send_kms_message py crypto world core wrapped destination s)
        (answer_of future now later)

  -- `self._register_pending_request(…)`, on the session, with a new identifier
  abbrev pub registered : String → Option EcPrivateKey → Session → ℕ × Session
  registered request_id key s =
      let (future, c) = register_pending_request request_id key s.client in
      (future, tick (record s { client = c }))

  abbrev pub unregister : String → Session → Session
  unregister request_id = on_client (unregister_pending_request request_id)

  abbrev pub ecdh_message : Json → Result KmsMessage
  ecdh_message (object fs) = message_from_dict py fs
  ecdh_message _ = err (kms_protocol_error "ECDH response payload is not an object")

  -- `EncryptionClient._send_ecdh_request`
  unfoldable pub send_ecdh_request :
      EcPrivateKey → RsaPublicKey → String → String → String → Action Session KmsMessage
  send_ecdh_request key rsa kid cluster user_id s =
      let request_id = generate_request_id (world.random s.ticks) in
      let (future, t) = registered request_id (some key) s in
      finally
        (exchange_message
          (wrap_with_rsa crypto
            (py.encode (py.dumps (ecdh_request t.client request_id key user_id))) rsa kid)
          (removeprefix cluster "kms://") future (λ jwes. decrypt_ecdh_response py crypto key jwes)
          (λ b. bind_result (py.loads_bytes b) ecdh_message) t)
        (unregister request_id)

  abbrev pub context_of : EcPrivateKey → String → ℕ → KmsMessage → Result EcdhContext
  context_of key cluster now response =
      bind_result (derive_shared_secret py crypto response key) λ secret. ok (record {
        local_private_key = key;
        shared_secret = secret;
        ecdh_key_uri = uri_of_key response.key;
        kms_cluster = cluster;
        created_at = now;
      })

  -- From the parsed RSA key on.
  abbrev pub exchange_with :
      String → KmsInfo → Result (RsaPublicKey × String) → Action Session EcdhContext
  exchange_with user_id info (err e) s = (err e, s)
  exchange_with user_id info (ok (rsa, kid)) s =
      let key = world.key_pair s.ticks in
      and_then (send_ecdh_request key rsa kid info.kms_cluster user_id (tick s))
        λ response t. (context_of key info.kms_cluster (world.clock t.ticks) response, tick t)

  -- `EncryptionClient._perform_ecdh_exchange`
  unfoldable pub perform_ecdh_exchange : Action Session EcdhContext
  perform_ecdh_exchange s = and_then (get_user_id py crypto world core s) λ user_id t.
      and_then (get_kms_info py crypto world core user_id t) λ info u.
        exchange_with user_id info (parse_rsa_public_key_from_json crypto py info.rsa_public_key) u

  -- `EncryptionClient._invalidate_ecdh`
  unfoldable pub invalidate_ecdh : Session → Session
  invalidate_ecdh = on_client (λ c. record c { ecdh_context = none })

  abbrev pub store_context : EcdhContext → Action Session EcdhContext
  store_context context s =
      (ok context, on_client (λ c. record c { ecdh_context = some context }) s)

  -- A new context, once the old one is cleared.
  abbrev pub create_ecdh : Action Session EcdhContext
  create_ecdh s = and_then (perform_ecdh_exchange (invalidate_ecdh s)) store_context

  abbrev pub reuse_or_create : Option EcdhContext → Action Session EcdhContext
  reuse_or_create none s = create_ecdh s
  reuse_or_create (some context) s =
      if is_fresh (world.clock s.ticks) context then (ok context, tick s) else create_ecdh (tick s)

  -- `EncryptionClient._get_or_create_ecdh`
  unfoldable pub get_or_create_ecdh : Action Session EcdhContext
  get_or_create_ecdh s = reuse_or_create s.client.ecdh_context s

  -- From the parsed URI on.
  abbrev pub retrieve_in :
      String → EcdhContext → String → String → ℕ → Result (String × String) → Action Session Key
  retrieve_in key_uri context user_id request_id future (err e) s = (err e, s)
  retrieve_in key_uri context user_id request_id future (ok (domain, _)) s =
      finally
        (exchange_message
          (wrap_with_shared_secret crypto
            (py.encode (py.dumps (retrieve_request s.client request_id key_uri user_id)))
            context.shared_secret context.ecdh_key_uri)
          (kms_cluster_from_domain domain context.kms_cluster) future
          (process_key_response_jwes py crypto context.shared_secret)
          (parse_key_from_payload py crypto) s)
        (unregister request_id)

  -- `EncryptionClient._do_kms_retrieve`
  unfoldable pub do_kms_retrieve : String → EcdhContext → Action Session Key
  do_kms_retrieve key_uri context s = and_then (get_user_id py crypto world core s) λ user_id t.
      let request_id = generate_request_id (world.random t.ticks) in
      let (future, u) = registered request_id none t in
      retrieve_in key_uri context user_id request_id future (parse_kms_uri key_uri) u
