-- ===== src/Conversation.antt =====
-- The reading of events and of message content of `src/webex_kms_sdk/conversation.py`.
pub mod Texts
pub mod Content
pub mod Dispatch
pub mod Filled
use webex_kms_sdk.Base.{
  String, Bool, true, false, Option, none, some, List, [], ◌∷◌, is_empty, if◌then◌else◌,
}
use webex_kms_sdk.Exceptions.{
  Exception, is_exception, json_decode_error, value_error, Result, ok, err, Action, bind_result,
}
use webex_kms_sdk.Text.{nonempty}
use webex_kms_sdk.Json.{
  Json, object, string, Items, Fields, end, field, Python, get, as_dict, as_list, as_text, to_list,
}
use webex_kms_sdk.Models.Event.{MercuryEvent}
use webex_kms_sdk.Models.Activity.{ConversationObject, Activity, activity_from_dict}
use webex_kms_sdk.Core.{CoreHttpClient}
use webex_kms_sdk.Encryption.Crypto.{Crypto}
use webex_kms_sdk.Encryption.State.{EncryptionClient}
use webex_kms_sdk.Encryption.Messages.{process_kms_messages}
use webex_kms_sdk.Encryption.Session.{Session, World}
use webex_kms_sdk.Encryption.Retrieval.{decrypt_message_content}

-- The value if it is a list, else none of its items.
abbrev pub items_of : Json → List Json
items_of v = elim (as_list v) [ none ↦ [] | some xs ↦ to_list xs ]

-- The `kmsMessages` of a dict.
abbrev pub messages_of : Json → List Json
messages_of v = elim (as_dict v) [ none ↦ [] | some fs ↦ items_of (get "kmsMessages" fs) ]

-- `if not kms_messages: …`
abbrev pub or_items : List Json → List Json → List Json
or_items [] later = later
or_items (x ∷ xs) later = x ∷ xs

-- `[item for item in kms_messages if isinstance(item, str) and item]`
unfoldable pub texts : List Json → List String
texts [] = []
texts (v ∷ vs) = elim (as_text v) [
  | none ↦ texts vs
  | some s ↦ let rest = texts vs in if nonempty s then s ∷ rest else rest
]

-- The shapes that are read without parsing.
unfoldable pub plain_messages : Fields → List Json
plain_messages event_data = or_items (messages_of (get "encryption" event_data)) (
    or_items (items_of (get "encryption.kmsMessages" event_data))
      (items_of (get "kmsMessages" event_data)))

-- `json.loads`, which gives `{}` for what is no JSON
abbrev pub loaded_messages : Result Json → Result (List Json)
loaded_messages (ok v) = ok (messages_of v)
loaded_messages (err (json_decode_error _)) = ok []
loaded_messages (err e) = err e

abbrev pub object_empty : Fields → Bool
object_empty end = true
object_empty (field _ _ _) = false

module _ (py : Python) where
  -- Where no other shape has messages, the text of `encryption` is parsed.
  abbrev pub or_serialized : List Json → Option String → Result (List Json)
  or_serialized (x ∷ xs) serialized = ok (x ∷ xs)
  or_serialized [] none = ok []
  or_serialized [] (some s) = loaded_messages (py.loads s)

  -- The messages that an event carries.
  unfoldable pub event_messages : Fields → Result (List String)
  event_messages event_data =
      bind_result
        (or_serialized (plain_messages event_data) (as_text (get "encryption" event_data)))
        (λ vs. ok (texts vs))

  -- `ConversationClient.process_activity_event`
  unfoldable pub process_activity_event : MercuryEvent → Result Activity
  process_activity_event ev =
      if object_empty ev.payload
      then err (value_error "event data is nil")
      else elim (as_dict (get "activity" ev.payload)) [
        | none ↦ err (value_error "activity data is missing or invalid")
        | some activity ↦ activity_from_dict py activity ev.payload
      ]

  module _ (crypto : Crypto) where
    abbrev pub forward : Result (List String) → Action EncryptionClient (Unit {0})
    forward (err e) c = (err e, c)
    forward (ok []) c = (ok tt, c)
    forward (ok (s ∷ ss)) c = process_kms_messages py crypto (s ∷ ss) c

    -- `ConversationClient.process_event_kms_messages`. Empty data has no messages of any shape.
    unfoldable pub process_event_kms_messages : MercuryEvent → Action EncryptionClient (Unit {0})
    process_event_kms_messages ev = forward (event_messages ev.payload)

    module _ (world : World) (core : CoreHttpClient) where
      -- `except Exception: return display_name`
      abbrev pub or_fallback : String → Result String × Session → Result String × Session
      or_fallback display_name (ok content, s) = (ok content, s)
      or_fallback display_name (err e, s) =
          if is_exception e then (ok display_name, s) else (err e, s)

      -- The content of a display name.
      abbrev pub displayed : String → Activity → Action Session String
      displayed display_name a s =
          if nonempty a.encryption_key_url
          then or_fallback display_name
              (decrypt_message_content py crypto world core a.encryption_key_url display_name s)
          else (ok display_name, s)

      -- Content that is there already.
      abbrev pub decrypted_content : Option ConversationObject → String
      decrypted_content none = ""
      decrypted_content (some o) = o.content

      abbrev pub display_content : Option String → Activity → Action Session String
      display_content none a s = (err (value_error "no displayName found in activity"), s)
      display_content (some name) a s =
          if nonempty name
          then displayed name a s
          else (err (value_error "no displayName found in activity"), s)

      -- `ConversationClient.get_message_content`
      unfoldable pub get_message_content : Activity → Action Session String
      get_message_content a s =
          if nonempty a.content
          then (ok a.content, s)
          else if nonempty (decrypted_content a.decrypted_object)
          then (ok (decrypted_content a.decrypted_object), s)
          else if object_empty a.object
          then (err (value_error "no content found in activity"), s)
          else display_content (as_text (get "displayName" a.object)) a s
