-- ===== src/Conversation/Filled.antt =====
-- The content that dispatch fills in, and the content that a caller asks for.
use webex_kms_sdk.Base.{
  String, ◌≡◌, sym, ap, subst, ◌∙◌, Bool, true, false, none, some, if◌then◌else◌,
}
use webex_kms_sdk.Exceptions.{Exception, is_exception, Result, ok, err}
use webex_kms_sdk.Text.{nonempty}
use webex_kms_sdk.Json.{Json, string, Fields, Python, get, as_text, text_or_empty}
use webex_kms_sdk.Models.Activity.{ConversationObject, Activity, object_from_dict}
use webex_kms_sdk.Core.{CoreHttpClient}
use webex_kms_sdk.Encryption.Crypto.{Crypto}
use webex_kms_sdk.Encryption.Session.{Session, World}
use webex_kms_sdk.Encryption.Retrieval.{decrypt_message_content}
use webex_kms_sdk.Conversation.{
  object_empty, decrypted_content, or_fallback, displayed, get_message_content,
}
use webex_kms_sdk.Conversation.Dispatch.{
  store_content, decrypt_content, fill_content, process_message_content,
}

-- A caller gets the content that the activity has then, or both raise the same.
pub data Agrees : Result String × Session → Result (Unit {0}) × (Activity × Session) → Type 0 where
  filled : (b : Activity) (s : Session) → Agrees (ok b.content, s) (ok tt, (b, s))
  raised : (e : Exception) (b : Activity) (s : Session) → Agrees (err e, s) (err e, (b, s))

as_text-string : (v : Json) (s : String) → as_text v ≡ some s → v ≡ string s
as_text-string (string t) s h = cc
as_text-string v s h = absurd (let k : none ≡ some s = h in cc)

module _ (py : Python) (crypto : Crypto) (world : World) (core : CoreHttpClient) where
  display_name_lem :
      (fs : Fields) (name : String)
      → as_text (get "displayName" fs) ≡ some name
      → nonempty name ≡ true
      → (object_from_dict py fs).display_name ≡ name
  unfolding object_from_dict text_or_empty
  display_name_lem fs name h n =
      ap (text_or_empty py) (as_text-string (get "displayName" fs) name h)
      ∙ ap (λ b. if b then name else "") n

  store-Agrees :
      (a : Activity) (out : Result String × Session)
      → Agrees
          (or_fallback py crypto world core a.content out)
          (store_content py crypto world core a out)
  store-Agrees a (ok t, s) = filled (record a { content = t }) s
  store-Agrees a (err e, s) = by_kind (is_exception e)
    where
      by_kind :
          (b : Bool)
          → Agrees
              (if b then (ok a.content, s) else (err e, s))
              (if b then ok tt else err e, (a, s))
      by_kind true = filled a s
      by_kind false = raised e a s

  decrypt-Agrees :
      (a : Activity) (s : Session)
      → Agrees
          (displayed py crypto world core a.content a s)
          (decrypt_content py crypto world core a.content (a, s))
  decrypt-Agrees a s = by_key (nonempty a.encryption_key_url)
    where
      out : Result String × Session
      out = decrypt_message_content py crypto world core a.encryption_key_url a.content s

      by_key :
          (b : Bool)
          → Agrees
              (if b then or_fallback py crypto world core a.content out else (ok a.content, s))
              (if b then store_content py crypto world core a out else (ok tt, (a, s)))
      by_key true = store-Agrees a out
      by_key false = filled a s

  fill-Agrees :
      (obj : ConversationObject) (a : Activity) (s : Session)
      → nonempty obj.display_name ≡ true
      → Agrees
          (displayed py crypto world core obj.display_name a s)
          (fill_content py crypto world core obj (a, s))
  fill-Agrees obj a s n =
      subst
        (λ b. Agrees (displayed py crypto world core obj.display_name a s) (
          if◌then◌else◌ {A = Result (Unit {0}) × (Activity × Session)} b
            (decrypt_content py crypto world core obj.display_name (filling, s))
            (ok tt, (record a { decrypted_object = some obj }, s))))
        (sym n) (decrypt-Agrees filling s)
    where
      filling : Activity
      filling = record a { decrypted_object = some obj; content = obj.display_name }

  -- For an activity without content of its own, whose object has a display name, dispatch fills in
  -- the content that `get_message_content` gives, with the same effects on the session; and where
  -- the one raises the other raises the same.
  pub process_message_content-Agrees :
      (a : Activity) (name : String) (s : Session)
      → nonempty a.content ≡ false
      → nonempty (decrypted_content py crypto world core a.decrypted_object) ≡ false
      → object_empty a.object ≡ false
      → as_text (get "displayName" a.object) ≡ some name
      → nonempty name ≡ true
      → Agrees
          (get_message_content py crypto world core a s)
          (process_message_content py crypto world core (a, s))
  unfolding get_message_content process_message_content
  process_message_content-Agrees a name s c d o t n =
      rw (c, d, o)
        (rw t (
          rw n (
            let e = display_name_lem a.object name t n in
            subst
              (λ x.
                Agrees (displayed py crypto world core x a s)
                  (fill_content py crypto world core (object_from_dict py a.object) (a, s)))
              e (fill-Agrees (object_from_dict py a.object) a s (ap nonempty e ∙ n)))))
