-- ===== src/Encryption/Messages/Loop.antt =====
-- What a whole call of `process_kms_messages` keeps.
use webex_kms_sdk.Base.{
  ℕ, String, ◌≡◌, true, string_eq, nat_eq, contains, contains-cons, ==_refl, ◌⊎◌, refl, inl, inr,
  Option, none, some, List, [], ◌∷◌,
}
use webex_kms_sdk.Dict.{lookup}
use webex_kms_sdk.Number.{Bytes}
use webex_kms_sdk.Exceptions.{Result, ok, err, and_then}
use webex_kms_sdk.Json.{Python}
use webex_kms_sdk.Models.KmsMessage.{KmsMessage}
use webex_kms_sdk.Encryption.Crypto.{Crypto}
use webex_kms_sdk.Encryption.State.{FutureState, resolved, PendingRequest, EncryptionClient}
use webex_kms_sdk.Encryption.Messages.{
  Snapshot, snapshot, read_message, apply_read, process_from, process_kms_messages,
}
use webex_kms_sdk.Encryption.Messages.Delivery.{
  Delivered, deliver-Delivered, Settled, Delivered-Settled, IsOpen, Delivered-IsOpen,
}

-- What each delivery keeps, the call keeps, however it ends. A delivery is of a message that the
-- call was given, and read with its snapshot.
module _ (py : Python) (crypto : Crypto) (snap : Snapshot) (all : List String)
    (P : EncryptionClient → Type 0)
    (keep : (raw : String) (m : KmsMessage) (b : Bytes) (c c' : EncryptionClient)
      → contains all raw ≡ true
      → read_message py crypto snap raw ≡ ok (some (m, b))
      → Delivered py crypto m b c c'
      → P c
      → P c') where
  run-keeps :
      (raw : String) (r : Result (Option (KmsMessage × Bytes))) (c : EncryptionClient)
      (rest : EncryptionClient → Result (Unit {0}) × EncryptionClient)
      → contains all raw ≡ true
      → read_message py crypto snap raw ≡ r
      → P c
      → ((d : EncryptionClient) → P d → P (rest d).1)
      → P (and_then (apply_read py crypto r c) (λ _. rest)).1
  run-keeps raw (err e) c rest i q h k = h
  run-keeps raw (ok none) c rest i q h k = k c h
  run-keeps raw (ok (some (m, b))) c rest i q h k =
      k _ (keep raw m b c _ i q (deliver-Delivered py crypto m b c) h)

  pub process_from-keeps :
      (messages : List String) (c : EncryptionClient)
      → ((raw : String) → contains messages raw ≡ true → contains all raw ≡ true)
      → P c
      → P (process_from py crypto snap messages c).1
  unfolding process_from
  process_from-keeps [] c sub h = h
  process_from-keeps (raw ∷ messages) c sub h =
      run-keeps raw (read_message py crypto snap raw) c (process_from py crypto snap messages)
        (sub raw (rw (==_refl raw))) refl h
        (λ d. process_from-keeps messages d (λ s i. sub s (contains-cons s raw messages i)))

module _ (py : Python) (crypto : Crypto) (messages : List String) (c : EncryptionClient) where
  -- A future that is done when KMS messages are processed keeps its state: no result is replaced,
  -- and no result is given to a cancelled future.
  pub process_kms_messages-Settled :
      (f : ℕ) (st : FutureState)
      → Settled f st c
      → Settled f st (process_kms_messages py crypto messages c).1
  unfolding process_kms_messages
  process_kms_messages-Settled f st h =
      process_from-keeps py crypto (snapshot c) messages (Settled f st)
        (λ raw m b d d' i q. Delivered-Settled py crypto f st m b d d') messages c (λ raw i. i) h

  -- The future of a request has the plaintext of a message that was given and read, and that
  -- names the request.
  pub record IsAnswered (r : String) (p : PendingRequest) (d : EncryptionClient) : Type 0 where
    pub raw : String
    pub message : KmsMessage
    pub plaintext : Bytes
    pub given : contains messages raw ≡ true
    pub was_read : read_message py crypto (snapshot c) raw ≡ ok (some (message, plaintext))
    pub names : message.request_id ≡ r
    pub answer : lookup p.future d.futures ≡ some (resolved plaintext)

  -- No request is lost, and none gets the answer to another: a request that waits, and shares its
  -- future with no other, still waits afterwards, or its future has the plaintext of a message of
  -- this call that names it. This holds also if a message makes the call raise.
  pub process_kms_messages_correlates :
      (r : String) (p : PendingRequest)
      → IsOpen r p c
      → IsOpen r p (process_kms_messages py crypto messages c).1
        ⊎ IsAnswered r p (process_kms_messages py crypto messages c).1
  unfolding process_kms_messages
  process_kms_messages_correlates r p h =
      process_from-keeps py crypto (snapshot c) messages (λ d. IsOpen r p d ⊎ IsAnswered r p d) keep
        messages c (λ raw i. i) (inl h)
    where
      keep :
          (raw : String) (m : KmsMessage) (b : Bytes) (d d' : EncryptionClient)
          → contains messages raw ≡ true
          → read_message py crypto (snapshot c) raw ≡ ok (some (m, b))
          → Delivered py crypto m b d d'
          → IsOpen r p d ⊎ IsAnswered r p d
          → IsOpen r p d' ⊎ IsAnswered r p d'
      keep raw m b d d' i q s (inl o) = elim (Delivered-IsOpen py crypto r p m b d d' s o) [
        | inl o' ↦ inl o'
        | inr (n, e) ↦ inr (record {
          raw = raw;
          message = m;
          plaintext = b;
          given = i;
          was_read = q;
          names = n;
          answer = e;
        })
      ]
      keep raw m b d d' i q s (inr a) = inr (record {
        raw = a.raw;
        message = a.message;
        plaintext = a.plaintext;
        given = a.given;
        was_read = a.was_read;
        names = a.names;
        answer =
            (Delivered-Settled py crypto p.future (resolved a.plaintext) m b d d' s
              (a.answer, refl)).0;
      })
