-- ===== src/Tests/Events.antt =====
-- The theorems on events, handlers and content at concrete inputs.
use webex_kms_sdk.Base.{String, ◌≡◌, refl, true, none, some, List, [], ◌∷◌, string_eq}
use webex_kms_sdk.Exceptions.{Exception, kms_protocol_error, ok}
use webex_kms_sdk.Json.{null, string, array, object, nil, cons, Fields, end, field}
use webex_kms_sdk.Models.Activity.{Activity}
use webex_kms_sdk.Encryption.Retrieval.{decrypt_message_content}
use webex_kms_sdk.Mercury.{Registry, handlers_for, on, off}
use webex_kms_sdk.Mercury.Handlers.{handlers_for-on, IsRemoval, handlers_for-off}
use webex_kms_sdk.Conversation.{event_messages, get_message_content}
use webex_kms_sdk.Conversation.Dispatch.{process_message_content}
use webex_kms_sdk.Conversation.Filled.{Agrees, process_message_content-Agrees}
use webex_kms_sdk.Conversation.Texts.{Texts}
use webex_kms_sdk.Conversation.Content.{
  dotted, event_messages-Carries, Shown, get_message_content-Shown,
}
use webex_kms_sdk.Tests.Fixtures.{toy_python, toy_crypto, toy_world, toy_core, ready_session}

abbrev refusal : Exception
refusal = kms_protocol_error "KMS request failed with status 500: "

abbrev registry : Registry
registry = ("a", 1 ∷ 2 ∷ 1 ∷ []) ∷ ("b", 1 ∷ []) ∷ []

handlers_for-on_example : handlers_for "b" (on "b" (some 3) registry) ≡ 1 ∷ 3 ∷ []
unfolding handlers_for webex_kms_sdk.Dict.lookup string_eq
handlers_for-on_example = handlers_for-on "b" "b" 3 registry

handlers_for-off_example : IsRemoval 1 true (1 ∷ 2 ∷ 1 ∷ []) (handlers_for "a" (off "a" 1 registry))
unfolding handlers_for webex_kms_sdk.Dict.lookup string_eq
handlers_for-off_example = handlers_for-off "a" "a" 1 registry

abbrev dotted_fields : Fields
dotted_fields = field "encryption.kmsMessages" (array (cons (string "jwe") (cons null nil))) end

event_messages-Carries_example :
    (ts : List String) × (event_messages toy_python dotted_fields ≡ ok ts)
    × Texts (cons (string "jwe") (cons null nil)) ts
unfolding webex_kms_sdk.Json.get string_eq
event_messages-Carries_example =
    event_messages-Carries toy_python (string "jwe") (cons null nil) dotted_fields
      (dotted refl refl)

abbrev toy_activity : Activity
toy_activity = record {
  id = "1";
  object_type = "";
  url = "";
  published = "";
  verb = "post";
  actor = end;
  object = field "displayName" (string "jwe") end;
  target = end;
  client_temp_id = "";
  encryption_key_url = "kms://a/keys/1";
  content = "";
  decrypted_object = none;
  message_type = "post";
  raw_data = end;
}

get_message_content-Shown_example :
    Shown "kms://a/keys/1"
      (decrypt_message_content toy_python toy_crypto toy_world toy_core "kms://a/keys/1" "jwe"
        ready_session).0
      "jwe"
      (get_message_content toy_python toy_crypto toy_world toy_core toy_activity ready_session).0
unfolding webex_kms_sdk.Json.get string_eq
get_message_content-Shown_example =
    get_message_content-Shown toy_python toy_crypto toy_world toy_core toy_activity "jwe"
      ready_session refl refl refl refl refl

process_message_content-Agrees_example :
    Agrees
      (get_message_content toy_python toy_crypto toy_world toy_core toy_activity ready_session)
      (process_message_content toy_python toy_crypto toy_world toy_core
        (toy_activity, ready_session))
unfolding webex_kms_sdk.Json.get string_eq
process_message_content-Agrees_example =
    process_message_content-Agrees toy_python toy_crypto toy_world toy_core toy_activity "jwe"
      ready_session refl refl refl refl refl
