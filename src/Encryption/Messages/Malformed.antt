-- ===== src/Encryption/Messages/Malformed.antt =====
-- Which messages end the call.
use webex_kms_sdk.Base.{ℕ, suc, String, ◌≡◌, arith, true, some, List, ◌∷◌}
use webex_kms_sdk.Number.{Bytes, pos}
use webex_kms_sdk.Exceptions.{Exception, type_error, ok, err}
use webex_kms_sdk.Text.{nonempty}
use webex_kms_sdk.Json.{null, integer, object, Fields, Python, get, iterate, truthy}
use webex_kms_sdk.Models.KmsMessage.{message_from_dict, optional_key}
use webex_kms_sdk.Encryption.Crypto.{Crypto}
use webex_kms_sdk.Encryption.State.{EncryptionClient}
use webex_kms_sdk.Encryption.Messages.{
  snapshot, plaintext_of, read_message, process_from, process_kms_messages,
}

truthy-suc : (n : ℕ) → truthy (integer (pos (suc n))) ≡ true
truthy-suc n = ground arith

keys_number :
    (py : Python) (fs : Fields) (n : ℕ)
    → get "key" fs ≡ null
    → get "keys" fs ≡ integer (pos (suc n))
    → message_from_dict py fs ≡ err (type_error "object is not iterable")
unfolding message_from_dict
keys_number py fs n k ks = rw (k, optional_key) (rw (ks, iterate) (rw (truthy-suc n)))

module _ (py : Python) (crypto : Crypto) (raw : String) (rest : List String)
    (c : EncryptionClient) where
  read_error :
      (e : Exception)
      → read_message py crypto (snapshot c) raw ≡ err e
      → process_kms_messages py crypto (raw ∷ rest) c ≡ (err e, c)
  unfolding process_kms_messages process_from
  read_error e h = rw h

  module _ (b : Bytes) (named : nonempty raw ≡ true)
      (decrypted : plaintext_of py crypto (snapshot c) raw ≡ some b) where
    -- A message whose plaintext is a JSON object without a key, and with a whole number above zero
    -- as its `keys`, raises a TypeError: the messages after it are not processed.
    pub process_kms_messages_malformed :
        (fs : Fields) (n : ℕ)
        → py.loads_bytes b ≡ ok (object fs)
        → get "key" fs ≡ null
        → get "keys" fs ≡ integer (pos (suc n))
        → process_kms_messages py crypto (raw ∷ rest) c
          ≡ (err (type_error "object is not iterable"), c)
    unfolding read_message
    process_kms_messages_malformed fs n h k ks =
        read_error _
          (rw (named, read_message) (rw decrypted (rw h (rw (keys_number py fs n k ks)))))
