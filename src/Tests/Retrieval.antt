-- ===== src/Tests/Retrieval.antt =====
-- The theorems on key retrieval at concrete inputs.
use webex_kms_sdk.Base.{String, ◌≡◌, refl, string_eq}
use webex_kms_sdk.Dict.{lookup}
use webex_kms_sdk.Exceptions.{Result, ok}
use webex_kms_sdk.Models.Jwk.{Key}
use webex_kms_sdk.Encryption.State.{EcdhContext}
use webex_kms_sdk.Encryption.Uri.{parse_kms_uri}
use webex_kms_sdk.Encryption.Session.{Session, tick}
use webex_kms_sdk.Encryption.Session.Shrinks.{NoNew, Keeps}
use webex_kms_sdk.Encryption.Kms.{do_kms_retrieve, get_or_create_ecdh}
use webex_kms_sdk.Encryption.Kms.Pending.{do_kms_retrieve-Keeps}
use webex_kms_sdk.Encryption.Kms.Context.{
  context_left, get_or_create_ecdh-context_left, get_or_create_ecdh_again,
}
use webex_kms_sdk.Encryption.Retrieval.{get_key}
use webex_kms_sdk.Encryption.Retrieval.Laws.{get_key_leaves_no_request, get_key_again}
use webex_kms_sdk.Tests.Fixtures.{
  toy_python, toy_crypto, toy_world, toy_core, toy_context, toy_key, ready_session, ready_client,
}

abbrev uri : String
uri = "kms://a/keys/1"

uri_run : parse_kms_uri uri ≡ ok ("a", "keys/1")
unfolding parse_kms_uri webex_kms_sdk.Text.strip_prefix webex_kms_sdk.Text.split_once
    webex_kms_sdk.Text.cut
uri_run = refl

do_kms_retrieve-Keeps_example :
    Keeps ready_client
      (do_kms_retrieve toy_python toy_crypto toy_world toy_core uri toy_context ready_session)
do_kms_retrieve-Keeps_example =
    do_kms_retrieve-Keeps toy_python toy_crypto toy_world toy_core uri toy_context ("a", "keys/1")
      ready_session uri_run

get_or_create_ecdh-context_left_example :
    let out = get_or_create_ecdh toy_python toy_crypto toy_world toy_core ready_session in
    out.1.client.ecdh_context ≡ context_left out.0
get_or_create_ecdh-context_left_example =
    get_or_create_ecdh-context_left toy_python toy_crypto toy_world toy_core ready_session

context_run :
    Path
      (Result EcdhContext × Session)
      (get_or_create_ecdh toy_python toy_crypto toy_world toy_core ready_session)
      (ok toy_context, tick ready_session)
unfolding get_or_create_ecdh webex_kms_sdk.Number.seconds webex_kms_sdk.Number.one
context_run = refl

get_or_create_ecdh_again_example :
    Path
      (Result EcdhContext × Session)
      (get_or_create_ecdh toy_python toy_crypto toy_world toy_core (tick ready_session))
      (ok toy_context, tick (tick ready_session))
unfolding webex_kms_sdk.Number.seconds webex_kms_sdk.Number.one
get_or_create_ecdh_again_example =
    get_or_create_ecdh_again toy_python toy_crypto toy_world toy_core ready_session
      (tick ready_session) toy_context context_run refl

get_key_leaves_no_request_example :
    NoNew ready_client (get_key toy_python toy_crypto toy_world toy_core uri ready_session).1.client
unfolding lookup
get_key_leaves_no_request_example =
    get_key_leaves_no_request toy_python toy_crypto toy_world toy_core uri ready_session refl

abbrev retrieved : Session
retrieved = (get_key toy_python toy_crypto toy_world toy_core uri ready_session).1

key_run :
    Path
      (Result Key × Session)
      (get_key toy_python toy_crypto toy_world toy_core uri ready_session)
      (ok toy_key, retrieved)
unfolding get_key webex_kms_sdk.Encryption.Retrieval.retrieve_and_cache_key
    webex_kms_sdk.Encryption.Retrieval.retrieve_key_via_ecdh get_or_create_ecdh do_kms_retrieve
    webex_kms_sdk.Encryption.Kms.get_user_id webex_kms_sdk.Encryption.Kms.send_kms_message
    webex_kms_sdk.Encryption.Session.request webex_kms_sdk.Encryption.Session.arrive
    webex_kms_sdk.Core.request_url webex_kms_sdk.Core.attempt_request webex_kms_sdk.Http.send
    parse_kms_uri webex_kms_sdk.Text.strip_prefix webex_kms_sdk.Text.split_once
    webex_kms_sdk.Text.cut webex_kms_sdk.Encryption.Response.process_key_response_jwes
    webex_kms_sdk.Encryption.Crypto.unwrap_with_shared_secret
    webex_kms_sdk.Encryption.Crypto.wrap_with_shared_secret
    webex_kms_sdk.Encryption.Response.parse_key_from_payload
    webex_kms_sdk.Models.KmsMessage.is_success webex_kms_sdk.Models.KmsMessage.message_from_dict
    webex_kms_sdk.Models.KmsMessage.optional_key webex_kms_sdk.Models.KmsMessage.keys_from
    webex_kms_sdk.Models.KmsMessage.optional_jwk webex_kms_sdk.Models.Jwk.key_from_dict
    webex_kms_sdk.Models.Jwk.jwk_from_dict webex_kms_sdk.Json.get webex_kms_sdk.Json.iterate
    webex_kms_sdk.Json.dicts webex_kms_sdk.Json.text_or_empty webex_kms_sdk.Json.to_text
    webex_kms_sdk.Json.dict_or_empty string_eq webex_kms_sdk.Number.seconds webex_kms_sdk.Number.one
    lookup webex_kms_sdk.Dict.insert webex_kms_sdk.Dict.erase
    webex_kms_sdk.Encryption.State.register_pending_request
    webex_kms_sdk.Encryption.State.unregister_pending_request
key_run = λ i. (run i, retrieved)
  where
    run : (get_key toy_python toy_crypto toy_world toy_core uri ready_session).0 ≡ ok toy_key
    run = refl

get_key_again_example :
    Path
      (Result Key × Session)
      (get_key toy_python toy_crypto toy_world toy_core uri retrieved)
      (ok toy_key, retrieved)
unfolding lookup
get_key_again_example =
    get_key_again toy_python toy_crypto toy_world toy_core uri toy_key ready_session retrieved refl
      refl key_run
