-- ===== src/Core/Log.antt =====
-- What `src/webex_kms_sdk/core.py` writes to the debug log of a JSON value.
use webex_kms_sdk.Base.{
  ℕ, zero, suc, String, ◌<>◌, ◌≡◌, refl, ap, ◌∙◌, Bool, true, false, ◌&&◌, List, [], ◌∷◌, contains,
  ◌==◌, ==_refl, ltb, string_eq, if◌then◌else◌,
}
use webex_kms_sdk.Number.{decimal}
use webex_kms_sdk.Text.{count}
use webex_kms_sdk.Http.{Response}
use webex_kms_sdk.Json.{
  Json, null, boolean, integer, float, string, array, object, Items, nil, cons, Fields, end, field,
}

-- `SENSITIVE_LOG_KEYS`
abbrev pub sensitive_log_keys : List String
sensitive_log_keys =
    "authorization" ∷ "bearer" ∷ "token" ∷ "access_token" ∷ "secret" ∷ "k" ∷ "d" ∷ []

abbrev pub max_log_value_length : ℕ
max_log_value_length = 2000

-- `s[:n]`
unfoldable pub take_text : ℕ → String → String
take_text zero s = ""
take_text (suc n) String.[] = ""
take_text (suc n) (String.◌∷◌ c s) = String.◌∷◌ c (take_text n s)

-- A text that is too long is cut.
unfoldable pub truncate_text : String → String
truncate_text s =
    if ltb max_log_value_length (count s)
    then take_text max_log_value_length s <> ("...<truncated " <> (decimal (count s) <> " chars>"))
    else s

-- `_response_preview`, of a body that is a text: it is cut as a value, and then as a preview.
unfoldable pub response_preview : Response → String
unfolding truncate_text
response_preview r = truncate_text (truncate_text r.text)

-- `lower` is `str.lower`.
module _ (lower : String → String) where
  abbrev pub is_sensitive : String → Bool
  is_sensitive key = contains sensitive_log_keys (lower key)

  unfoldable mutual
    -- `_redact_for_log`
    pub redact_for_log : Json → Json
    redact_for_log (object fs) = object (redact_fields fs)
    redact_for_log (array xs) = array (redact_items xs)
    redact_for_log (string s) = string (truncate_text s)
    redact_for_log null = null
    redact_for_log (boolean b) = boolean b
    redact_for_log (integer z) = integer z
    redact_for_log (float x) = float x

    pub redact_items : Items → Items
    redact_items nil = nil
    redact_items (cons x xs) = cons (redact_for_log x) (redact_items xs)

    pub redact_fields : Fields → Fields
    redact_fields end = end
    redact_fields (field k v fs) =
        let w = redact_for_log v in
        field k (if is_sensitive k then string "<redacted>" else w) (redact_fields fs)

  abbrev pub is_redacted : Json → Bool
  is_redacted (string s) = s == "<redacted>"
  is_redacted _ = false

  -- Below each sensitive key, at every depth, stands the mark only.
  unfoldable mutual
    pub is_clean : Json → Bool
    is_clean (object fs) = are_clean_fields fs
    is_clean (array xs) = are_clean_items xs
    is_clean _ = true

    pub are_clean_items : Items → Bool
    are_clean_items nil = true
    are_clean_items (cons x xs) = is_clean x && are_clean_items xs

    pub are_clean_fields : Fields → Bool
    are_clean_fields end = true
    are_clean_fields (field k v fs) =
        let c = is_clean v in (if is_sensitive k then is_redacted v else c) && are_clean_fields fs

  and_true : (a b : Bool) → a ≡ true → b ≡ true → (a && b) ≡ true
  and_true a b h k = ap (λ x. x && b) h ∙ k

  field_clean :
      (b : Bool) (w : Json)
      → is_clean w ≡ true
      → (if b
          then is_redacted (if b then string "<redacted>" else w)
          else is_clean (if b then string "<redacted>" else w))
        ≡ true
  field_clean true w h = ==_refl {A = String} "<redacted>"
  field_clean false w h = h

  mutual
    unfolding redact_for_log is_clean

    clean_value : (v : Json) → is_clean (redact_for_log v) ≡ true
    clean_value (object fs) = clean_fields fs
    clean_value (array xs) = clean_items xs
    clean_value (string s) = refl
    clean_value null = refl
    clean_value (boolean b) = refl
    clean_value (integer z) = refl
    clean_value (float x) = refl

    clean_items : (xs : Items) → are_clean_items (redact_items xs) ≡ true
    clean_items nil = refl
    clean_items (cons x xs) = and_true _ _ (clean_value x) (clean_items xs)

    clean_fields : (fs : Fields) → are_clean_fields (redact_fields fs) ≡ true
    clean_fields end = refl
    clean_fields (field k v fs) =
        and_true _ _ (field_clean (is_sensitive k) (redact_for_log v) (clean_value v))
          (clean_fields fs)

  -- In what is logged of a value, every field with a sensitive key, at every depth, holds the mark
  -- in place of its value.
  pub is_clean-redact_for_log : (v : Json) → is_clean (redact_for_log v) ≡ true
  is_clean-redact_for_log v = clean_value v
