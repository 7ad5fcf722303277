-- ===== src/Conversation/Content.antt =====
-- Which content a caller gets, and which shapes of an event carry the same messages.
use webex_kms_sdk.Base.{
  String, ◌≡◌, ◌≢◌, refl, sym, ap, ◌∙◌, false, inl, inr, true, false, Bool-cases, some, List,
}
use webex_kms_sdk.Exceptions.{
  Exception, api_error, kms_protocol_error, runtime_error, value_error, json_decode_error,
  unicode_error, type_error, attribute_error, overflow_error, foreign, timeout_error, is_exception,
  cancelled_error, Result, ok, err,
}
use webex_kms_sdk.Text.{nonempty}
use webex_kms_sdk.Json.{
  Json, null, object, string, array, Items, cons, Fields, Python, get, as_text, to_list,
}
use webex_kms_sdk.Models.Activity.{Activity}
use webex_kms_sdk.Core.{CoreHttpClient}
use webex_kms_sdk.Encryption.Crypto.{Crypto}
use webex_kms_sdk.Encryption.Session.{Session, World}
use webex_kms_sdk.Encryption.Retrieval.{decrypt_message_content}
use webex_kms_sdk.Conversation.{
  texts, plain_messages, event_messages, decrypted_content, or_fallback, displayed,
  get_message_content, object_empty,
}
use webex_kms_sdk.Conversation.Texts.{Texts, texts-Texts}

module _ (py : Python) (x : Json) (xs : Items) where
  abbrev expected : Result (List String)
  expected = ok (texts (to_list (cons x xs)))

  -- Messages in the nested object are read from there.
  nested_shape :
      (fs inner : Fields)
      → get "encryption" fs ≡ object inner
      → get "kmsMessages" inner ≡ array (cons x xs)
      → event_messages py fs ≡ expected
  unfolding event_messages plain_messages
  nested_shape fs inner e i = rw e (rw i)

  dotted_shape :
      (fs : Fields)
      → get "encryption" fs ≡ null
      → get "encryption.kmsMessages" fs ≡ array (cons x xs)
      → event_messages py fs ≡ expected
  unfolding event_messages plain_messages
  dotted_shape fs e d = rw e (rw d)

  direct_shape :
      (fs : Fields)
      → get "encryption" fs ≡ null
      → get "encryption.kmsMessages" fs ≡ null
      → get "kmsMessages" fs ≡ array (cons x xs)
      → event_messages py fs ≡ expected
  unfolding event_messages plain_messages
  direct_shape fs e d k = rw e (rw d (rw k))

  serialized_shape :
      (fs inner : Fields) (text : String)
      → get "encryption" fs ≡ string text
      → get "encryption.kmsMessages" fs ≡ null
      → get "kmsMessages" fs ≡ null
      → py.loads text ≡ ok (object inner)
      → get "kmsMessages" inner ≡ array (cons x xs)
      → event_messages py fs ≡ expected
  unfolding event_messages plain_messages
  serialized_shape fs inner text e d k l i = rw e (rw d (rw k (rw l (rw i))))

  -- The shapes in which event data carries the messages: a nested object, a dotted name, the event
  -- itself, and a text that parses to an object.
  pub data Carries (fs : Fields) : Type 0 where
    nested :
        (inner : Fields)
        → get "encryption" fs ≡ object inner
        → get "kmsMessages" inner ≡ array (cons x xs)
        → Carries fs
    dotted :
        get "encryption" fs ≡ null
        → get "encryption.kmsMessages" fs ≡ array (cons x xs)
        → Carries fs
    direct :
        get "encryption" fs ≡ null
        → get "encryption.kmsMessages" fs ≡ null
        → get "kmsMessages" fs ≡ array (cons x xs)
        → Carries fs
    serialized :
        (inner : Fields) (text : String)
        → get "encryption" fs ≡ string text
        → get "encryption.kmsMessages" fs ≡ null
        → get "kmsMessages" fs ≡ null
        → py.loads text ≡ ok (object inner)
        → get "kmsMessages" inner ≡ array (cons x xs)
        → Carries fs

  read_alike : (fs : Fields) → Carries fs → event_messages py fs ≡ expected
  read_alike fs (nested inner e i) = nested_shape fs inner e i
  read_alike fs (dotted e d) = dotted_shape fs e d
  read_alike fs (direct e d k) = direct_shape fs e d k
  read_alike fs (serialized inner text e d k l i) = serialized_shape fs inner text e d k l i

  -- From each of the four shapes a list of messages that is not empty is read alike: its texts that
  -- are not empty, in their order.
  pub event_messages-Carries :
      (fs : Fields)
      → Carries fs
      → (ts : List String) × (event_messages py fs ≡ ok ts) × Texts (cons x xs) ts
  event_messages-Carries fs h =
      (texts (to_list (cons x xs)), read_alike fs h, texts-Texts (cons x xs))

-- What a caller gets of an activity: without content of its own, by the URL of its key and what
-- decryption gives: the display name where there is no URL, the text that decryption gives, the
-- display name where decryption raises an exception, or the cancellation of the call.
pub data Shown (url : String) (decrypted : Result String) (display_name : String)
    : Result String → Type 0 where
  unencrypted : nonempty url ≡ false → Shown url decrypted display_name (ok display_name)
  opened :
      (t : String)
      → nonempty url ≡ true
      → decrypted ≡ ok t
      → Shown url decrypted display_name (ok t)
  fallback :
      (e : Exception)
      → nonempty url ≡ true
      → decrypted ≡ err e
      → e ≢ cancelled_error
      → Shown url decrypted display_name (ok display_name)
  stopped :
      nonempty url ≡ true
      → decrypted ≡ err cancelled_error
      → Shown url decrypted display_name (err cancelled_error)

exception-live : (e : Exception) → is_exception e ≡ true → e ≢ cancelled_error
exception-live e h q = let f : false ≡ true = sym (ap is_exception q) ∙ h in cc

module _ (py : Python) (crypto : Crypto) (world : World) (core : CoreHttpClient) where
  or_fallback-Shown :
      (url name : String) (out : Result String × Session)
      → nonempty url ≡ true
      → Shown url out.0 name (or_fallback py crypto world core name out).0
  or_fallback-Shown url name (ok t, s) u = opened t u refl
  or_fallback-Shown url name (err e, s) u = by_kind e
    where
      by_kind :
          (e : Exception)
          → Shown url (err e) name (or_fallback py crypto world core name (err e, s)).0
      by_kind cancelled_error = stopped u refl
      by_kind (api_error k x) = fallback (api_error k x) u refl (exception-live _ refl)
      by_kind (kms_protocol_error m) =
          fallback (kms_protocol_error m) u refl (exception-live _ refl)
      by_kind (runtime_error m) = fallback (runtime_error m) u refl (exception-live _ refl)
      by_kind (value_error m) = fallback (value_error m) u refl (exception-live _ refl)
      by_kind (json_decode_error m) = fallback (json_decode_error m) u refl (exception-live _ refl)
      by_kind (unicode_error m) = fallback (unicode_error m) u refl (exception-live _ refl)
      by_kind (type_error m) = fallback (type_error m) u refl (exception-live _ refl)
      by_kind (attribute_error m) = fallback (attribute_error m) u refl (exception-live _ refl)
      by_kind (overflow_error m) = fallback (overflow_error m) u refl (exception-live _ refl)
      by_kind (foreign m) = fallback (foreign m) u refl (exception-live _ refl)
      by_kind timeout_error = fallback timeout_error u refl (exception-live _ refl)

  displayed-Shown :
      (name : String) (a : Activity) (s : Session)
      → Shown a.encryption_key_url
          (decrypt_message_content py crypto world core a.encryption_key_url name s).0
          name
          (displayed py crypto world core name a s).0
  displayed-Shown name a s = elim (Bool-cases (nonempty a.encryption_key_url)) [
    | inl e ↦ rw (e, displayed) (or_fallback-Shown a.encryption_key_url name _ e)
    | inr e ↦ rw (e, displayed) (unencrypted e)
  ]

  -- An activity without content of its own, whose object has a display name: `get_message_content`
  -- gives the display name where the activity names no key, and otherwise the text that the
  -- decryption of it gives, the display name where that raises an exception other than a
  -- cancellation, and the cancellation where it is cancelled.
  pub get_message_content-Shown :
      (a : Activity) (name : String) (s : Session)
      → nonempty a.content ≡ false
      → nonempty (decrypted_content py crypto world core a.decrypted_object) ≡ false
      → object_empty a.object ≡ false
      → as_text (get "displayName" a.object) ≡ some name
      → nonempty name ≡ true
      → Shown a.encryption_key_url
          (decrypt_message_content py crypto world core a.encryption_key_url name s).0
          name
          (get_message_content py crypto world core a s).0
  unfolding get_message_content
  get_message_content-Shown a name s c d o t n =
      rw (c, d, o) (rw t (rw n (displayed-Shown name a s)))
