-- ===== src/Conversation/Dispatch.antt =====
-- The handlers of activities and the wiring of `ConversationClient` to Mercury, to the device and to
-- the encryption client. A handler is a number, its identity, and a parameter says what it does.
use webex_kms_sdk.Base.{
  ℕ, String, Bool, ◌||◌, Option, none, some, List, [], ◌++◌, map, ◌==◌, string_eq, if◌then◌else◌,
}
use webex_kms_sdk.Exceptions.{is_exception, is_value_error, Result, ok, err, Action, and_then}
use webex_kms_sdk.Text.{nonempty}
use webex_kms_sdk.Json.{Python}
use webex_kms_sdk.Models.Event.{MercuryEvent}
use webex_kms_sdk.Models.Activity.{ConversationObject, Activity, object_from_dict}
use webex_kms_sdk.Core.{CoreHttpClient}
use webex_kms_sdk.Encryption.Crypto.{Crypto}
use webex_kms_sdk.Encryption.State.{EncryptionClient, set_device_info}
use webex_kms_sdk.Encryption.Session.{Session, World}
use webex_kms_sdk.Encryption.Retrieval.{decrypt_message_content}
use webex_kms_sdk.Mercury.{Registry, handlers_for, on, off}
use webex_kms_sdk.Mercury.Client.{DeviceProvider, MercurySession, MercuryWorld, call_provider}
use webex_kms_sdk.Mercury.Connection.{connect, disconnect}
use webex_kms_sdk.Conversation.{object_empty, process_activity_event, process_event_kms_messages}

-- `ConversationClient.on` and `ConversationClient.off`, which keep a registry as `MercuryClient` does.
unfoldable pub on_verb : String → Option ℕ → Registry → Registry
unfolding on
on_verb verb handler handlers = on verb handler handlers

unfoldable pub off_verb : String → ℕ → Registry → Registry
unfolding off
off_verb verb handler handlers = off verb handler handlers

-- `ConversationClient._wire_mercury`, with the two handlers of the client.
unfoldable pub wire_mercury : ℕ → ℕ → Registry → Registry
wire_mercury conversation_handler kms_handler handlers =
    on "encryption.kms_message" (some kms_handler)
      (on "conversation.activity" (some conversation_handler) handlers)

-- `ConversationClient._dispatch_activity`: the calls that are scheduled, in order.
unfoldable pub dispatch_activity : Registry → Activity → List (ℕ × Activity)
dispatch_activity handlers a =
    map (λ h. (h, a)) (handlers_for a.verb handlers ++ handlers_for "*" handlers)

-- `activity.verb in MESSAGE_ACTIVITY_TYPES`
abbrev pub is_message : Activity → Bool
is_message a = a.verb == "post" || a.verb == "share"

module _ (py : Python) (crypto : Crypto) where
  -- `except ValueError: return`
  abbrev pub dispatched : Registry → Result Activity → Result (List (ℕ × Activity))
  dispatched handlers (ok a) = ok (dispatch_activity handlers a)
  dispatched handlers (err e) = if is_value_error e then ok [] else err e

  -- `ConversationClient._handle_conversation_event`: the calls that it schedules.
  unfoldable pub handle_conversation_event :
      Registry → MercuryEvent → Action EncryptionClient (List (ℕ × Activity))
  handle_conversation_event handlers ev c =
      and_then (process_event_kms_messages py crypto ev c)
        (λ _ d. (dispatched handlers (process_activity_event py ev), d))

  -- `ConversationClient._handle_kms_event`
  unfoldable pub handle_kms_event : MercuryEvent → Action EncryptionClient (Unit {0})
  handle_kms_event ev c = process_event_kms_messages py crypto ev c

  module _ (world : World) (core : CoreHttpClient) where
    -- The outcome of the decryption, of an activity that has the display name as its content.
    abbrev pub store_content :
        Activity → Result String × Session → Result (Unit {0}) × (Activity × Session)
    store_content a (ok content, s) = (ok tt, (record a { content = content }, s))
    store_content a (err e, s) = (if is_exception e then ok tt else err e, (a, s))

    abbrev pub decrypt_content : String → Action (Activity × Session) (Unit {0})
    decrypt_content display_name (a, s) =
        if nonempty a.encryption_key_url
        then store_content a
            (decrypt_message_content py crypto world core a.encryption_key_url display_name s)
        else (ok tt, (a, s))

    abbrev pub fill_content : ConversationObject → Action (Activity × Session) (Unit {0})
    fill_content obj (a, s) =
        let b = record a { decrypted_object = some obj } in
        if nonempty obj.display_name
        then decrypt_content obj.display_name (record b { content = obj.display_name }, s)
        else (ok tt, (b, s))

    -- `ConversationClient._process_message_content`
    unfoldable pub process_message_content : Action (Activity × Session) (Unit {0})
    process_message_content (a, s) =
        if object_empty a.object
        then (ok tt, (a, s))
        else fill_content (object_from_dict py a.object) (a, s)

    -- `ConversationClient._invoke_activity_handler`
    unfoldable pub invoke_activity_handler :
        Action (Activity × Session) (Unit {0}) → Action (Activity × Session) (Unit {0})
    invoke_activity_handler handler (a, s) =
        if is_message a
        then and_then (process_message_content (a, s)) (λ _ t. handler t)
        else handler (a, s)

module _ {P : Type 0} where
  abbrev pub identity_of : DeviceProvider P → Action (MercurySession P) (String × String)
  identity_of p s = and_then (call_provider p.register s) λ _ t.
      and_then (call_provider p.get_device_url t)
        λ url u. and_then (call_provider p.get_user_id u) (λ user_id v. (ok (url, user_id), v))

  -- `except Exception: return`
  abbrev pub store_identity :
      EncryptionClient
      → Result (String × String) × MercurySession P
      → Result (Unit {0}) × (MercurySession P × EncryptionClient)
  store_identity c (ok (url, user_id), s) = (ok tt, (s, set_device_info url user_id c))
  store_identity c (err e, s) = (if is_exception e then ok tt else err e, (s, c))

  abbrev pub wire_provider :
      Option (DeviceProvider P) → Action (MercurySession P × EncryptionClient) (Unit {0})
  wire_provider none (s, c) = (ok tt, (s, c))
  wire_provider (some p) (s, c) = store_identity c (identity_of p s)

  -- `ConversationClient._wire_encryption_device_info`
  unfoldable pub wire_encryption_device_info :
      Action (MercurySession P × EncryptionClient) (Unit {0})
  wire_encryption_device_info (s, c) = wire_provider s.client.device_provider (s, c)

  abbrev pub beside :
      EncryptionClient
      → Result (Unit {0}) × MercurySession P
      → Result (Unit {0}) × (MercurySession P × EncryptionClient)
  beside c (r, s) = (r, (s, c))

  -- `ConversationClient.connect` and `ConversationClient.disconnect`
  unfoldable pub connect_conversation :
      Python
      → MercuryWorld
      → CoreHttpClient
      → Action (MercurySession P × EncryptionClient) (Unit {0})
  connect_conversation py world core s =
      and_then (wire_encryption_device_info s) (λ _ (t, c). beside c (connect py world core t))

  unfoldable pub disconnect_conversation :
      MercuryWorld → Action (MercurySession P × EncryptionClient) (Unit {0})
  disconnect_conversation world (s, c) = beside c (disconnect world s)
