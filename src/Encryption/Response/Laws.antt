-- ===== src/Encryption/Response/Laws.antt =====
-- Which response the program takes its key from.
use webex_kms_sdk.Base.{
  String, ◌≡◌, ◌↔◌, refl, ap, ◌∙◌, Option, none, some, subst, Bool, true, false, not, ◌&&◌, ◌<>◌,
  if◌then◌else◌, List, [], ◌∷◌, ◌++◌,
}
use webex_kms_sdk.Number.{Bytes}
use webex_kms_sdk.Exceptions.{kms_protocol_error, Result, ok, err, bind_result-eq-ok}
use webex_kms_sdk.Json.{Json, object, Fields, Python, to_text}
use webex_kms_sdk.Models.Jwk.{Key}
use webex_kms_sdk.Models.KmsMessage.{KmsMessage, message_from_dict, is_success}
use webex_kms_sdk.Encryption.Crypto.{Crypto, unwrap_with_shared_secret}
use webex_kms_sdk.Encryption.Response.{
  first_key, key_of_message, message_of_json, parse_key_from_payload, process_key_response_jwes,
}

module _ (py : Python) (crypto : Crypto) (secret : Bytes) where
  abbrev pub is_ok : Result Bytes → Bool
  is_ok (ok _) = true
  is_ok (err _) = false

  abbrev pub none_decryptable : List String → Bool
  none_decryptable [] = true
  none_decryptable (jwe ∷ jwes) =
      not (is_ok (unwrap_with_shared_secret crypto jwe secret)) && none_decryptable jwes

  -- The first response that decrypts decides, whatever stands behind it: also where it holds no
  -- usable key, the ones behind it are not tried.
  pub process_key_response_jwes_first :
      (before after : List String) (jwe : String) (payload : Bytes)
      → none_decryptable before ≡ true
      → unwrap_with_shared_secret crypto jwe secret ≡ ok payload
      → process_key_response_jwes py crypto secret (before ++ (jwe ∷ after))
        ≡ parse_key_from_payload py crypto payload
  unfolding process_key_response_jwes
  process_key_response_jwes_first [] after jwe payload h e = rw (e, process_key_response_jwes)
  process_key_response_jwes_first (j ∷ before) after jwe payload h e =
      skip (λ h'. process_key_response_jwes_first before after jwe payload h' e)
        (unwrap_with_shared_secret crypto j secret) refl
    where
      carry :
          (r : Result Bytes)
          → unwrap_with_shared_secret crypto j secret ≡ r
          → (not (is_ok r) && none_decryptable before) ≡ true
      carry r q = subst (λ r. (not (is_ok r) && none_decryptable before) ≡ true) q h

      skip :
          (none_decryptable before ≡ true
            → process_key_response_jwes py crypto secret (before ++ (jwe ∷ after))
              ≡ parse_key_from_payload py crypto payload)
          → (r : Result Bytes) → unwrap_with_shared_secret crypto j secret ≡ r
          → process_key_response_jwes py crypto secret (j ∷ (before ++ (jwe ∷ after)))
            ≡ parse_key_from_payload py crypto payload
      skip rest (ok b) q = absurd (let h' : false ≡ true = carry (ok b) q in cc)
      skip rest (err x) q =
          let h' : none_decryptable before ≡ true = carry (err x) q in
          rw (q, process_key_response_jwes) (rest h')

-- The key that a message names: its single key, or else the first of its list.
pub data Names (m : KmsMessage) (key : Key) : Type 0 where
  single : m.key ≡ some key → Names m key
  listed : (others : List Key) → m.key ≡ none → m.keys ≡ key ∷ others → Names m key

-- The payload is a JSON object, a KMS message of a successful status, that names the key.
pub record IsGrant (py : Python) (payload : Bytes) (key : Key) : Type 0 where
  pub fields : Fields
  pub message : KmsMessage
  pub loaded : py.loads_bytes payload ≡ ok (object fields)
  pub read : message_from_dict py fields ≡ ok message
  pub successful : is_success message ≡ ok true
  pub named : Names message key

key_of_message-Names : (m : KmsMessage) (key : Key) → key_of_message m ≡ ok key → Names m key
key_of_message-Names m key h = by_single m.key refl h
  where
    picked : Option Key → Result Key
    picked o = elim o [ some k ↦ ok k | none ↦ first_key m.keys ]

    by_list : (ks : List Key) → m.keys ≡ ks → m.key ≡ none → first_key ks ≡ ok key → Names m key
    by_list [] q e p = absurd (cc)
    by_list (k ∷ ks) q e p = let i : k ≡ key = cc in listed ks e (q ∙ ap (λ x. x ∷ ks) i)

    by_single : (o : Option Key) → m.key ≡ o → picked o ≡ ok key → Names m key
    by_single (some k) e p = let i : k ≡ key = cc in single (e ∙ ap some i)
    by_single none e p = by_list m.keys refl e p

Names-key_of_message : (m : KmsMessage) (key : Key) → Names m key → key_of_message m ≡ ok key
Names-key_of_message m key (single e) = rw (e, key_of_message)
Names-key_of_message m key (listed ks e q) = rw (e, key_of_message) (rw (q, first_key))

-- `parse_key_from_payload` gives a key exactly where the payload is a JSON object that is a KMS
-- message of a successful status, and the key is the single one of that message or, where it has
-- none, the first of its list.
pub parse_key_from_payload_iff :
    (py : Python) (crypto : Crypto) (payload : Bytes) (key : Key)
    → (parse_key_from_payload py crypto payload ≡ ok key) ↔ IsGrant py payload key
unfolding parse_key_from_payload
parse_key_from_payload_iff py crypto payload key = (granted, given)
  where
    of_success :
        (fs : Fields) (m : KmsMessage)
        → py.loads_bytes payload ≡ ok (object fs)
        → message_from_dict py fs ≡ ok m
        → (b : Bool) → is_success m ≡ ok b
        → (if b
            then key_of_message m
            else err
                (kms_protocol_error ("KMS request failed with status: " <> to_text py m.status)))
          ≡ ok key
        → IsGrant py payload key
    of_success fs m e f true g h = record {
      fields = fs;
      message = m;
      loaded = e;
      read = f;
      successful = g;
      named = key_of_message-Names m key h;
    }
    of_success fs m e f false g h = absurd (cc)

    of_value :
        (v : Json)
        → py.loads_bytes payload ≡ ok v
        → (m : KmsMessage) → message_of_json py crypto v ≡ ok m
        → (b : Bool) → is_success m ≡ ok b
        → (if b
            then key_of_message m
            else err
                (kms_protocol_error ("KMS request failed with status: " <> to_text py m.status)))
          ≡ ok key
        → IsGrant py payload key
    of_value (object fs) e m f b g h = of_success fs m e f b g h
    of_value v e m f b g h = absurd (cc)

    granted : parse_key_from_payload py crypto payload ≡ ok key → IsGrant py payload key
    granted h =
        let (v, e, h1) = bind_result-eq-ok (py.loads_bytes payload) _ h in
        let (m, f, h2) = bind_result-eq-ok (message_of_json py crypto v) _ h1 in
        let (b, g, h3) = bind_result-eq-ok (is_success m) _ h2 in of_value v e m f b g h3

    given : IsGrant py payload key → parse_key_from_payload py crypto payload ≡ ok key
    given g = rw g.loaded (rw g.read (rw g.successful (Names-key_of_message g.message key g.named)))
