-- ===== src/Encryption/Messages/Skipped.antt =====
-- Messages that cannot be decrypted, wherever they stand among the messages of a call.
use webex_kms_sdk.Base.{
  String, ◌≡◌, ◌≢◌, refl, ap, ◌∙◌, inl, inr, Bool-cases, false, Option, none, some, List, [], ◌∷◌,
}
use webex_kms_sdk.Dict.{values}
use webex_kms_sdk.Number.{Bytes}
use webex_kms_sdk.Exceptions.{Result, ok, err, and_then}
use webex_kms_sdk.Text.{nonempty, occurrences, startswith}
use webex_kms_sdk.Json.{Python}
use webex_kms_sdk.Encryption.Crypto.{
  Crypto, EcPrivateKey, unwrap_with_shared_secret, decrypt_ecdh_jwe,
}
use webex_kms_sdk.Encryption.State.{EcdhContext, PendingRequest, EncryptionClient}
use webex_kms_sdk.Encryption.Messages.{
  snapshot, private_keys_of, ok_or_none, or_else, open_envelope, try_private_keys, try_context,
  decrypt_message, plaintext_of, read_message, apply_read, process_from, process_kms_messages,
}

module _ (crypto : Crypto) (raw : String) where
  -- No pending request has a key that decrypts the message.
  pub data AllFail : List PendingRequest → Type 0 where
    nothing_pending : AllFail []
    without_key :
        (p : PendingRequest) (ps : List PendingRequest)
        → p.ecdh_private_key ≡ none
        → AllFail ps
        → AllFail (p ∷ ps)
    fails_with :
        (p : PendingRequest) (ps : List PendingRequest) (key : EcPrivateKey)
        → p.ecdh_private_key ≡ some key
        → ((b : Bytes) → decrypt_ecdh_jwe crypto raw key ≢ ok b)
        → AllFail ps
        → AllFail (p ∷ ps)

  -- The message has four dots, is no JSON object, and neither the context, if there is one, nor the
  -- key of a pending request decrypts it.
  pub record IsUndecryptable (c : EncryptionClient) : Type 0 where
    pub four_dots : occurrences "." raw ≡ 4
    pub no_json : startswith raw "{" ≡ false
    pub by_context :
        (x : EcdhContext) (b : Bytes)
        → c.ecdh_context ≡ some x
        → unwrap_with_shared_secret crypto raw x.shared_secret ≢ ok b
    pub by_requests : AllFail (values c.pending_requests)

  none_of : {A : Type 0} (r : Result A) → ((a : A) → r ≢ ok a) → ok_or_none r ≡ none
  none_of (ok a) h = absurd (h a refl)
  none_of (err e) h = refl

  context-none :
      (o : Option EcdhContext)
      → ((x : EcdhContext) (b : Bytes)
          → o ≡ some x
          → unwrap_with_shared_secret crypto raw x.shared_secret ≢ ok b)
      → (py : Python) → try_context py crypto raw o ≡ none
  context-none none h py = refl
  context-none (some x) h py =
      none_of (unwrap_with_shared_secret crypto raw x.shared_secret) (λ b. h x b refl)

  keys-none :
      (py : Python) (ps : List PendingRequest)
      → AllFail ps
      → try_private_keys py crypto raw (private_keys_of ps) ≡ none
  unfolding try_private_keys
  keys-none py _ nothing_pending = refl
  keys-none py _ (without_key p ps e h) = rw (e, private_keys_of) (keys-none py ps h)
  keys-none py _ (fails_with p ps key e f h) =
      rw (e, private_keys_of)
        (ap (λ o. or_else o (try_private_keys py crypto raw (private_keys_of ps)))
            (none_of (decrypt_ecdh_jwe crypto raw key) f)
          ∙ keys-none py ps h)

  four_dots-open_envelope :
      (py : Python) → occurrences "." raw ≡ 4 → open_envelope py crypto raw ≡ (none, raw)
  unfolding open_envelope
  four_dots-open_envelope py h = rw h refl

  undecryptable-decrypt_message :
      (py : Python) (c : EncryptionClient)
      → IsUndecryptable c
      → decrypt_message py crypto (snapshot c) raw ≡ none
  unfolding decrypt_message
  undecryptable-decrypt_message py c h = rw h.four_dots (
      rw (context-none c.ecdh_context h.by_context py)
        (rw (keys-none py (values c.pending_requests) h.by_requests) refl))

  undecryptable-plaintext_of :
      (py : Python) (c : EncryptionClient)
      → IsUndecryptable c
      → plaintext_of py crypto (snapshot c) raw ≡ none
  unfolding plaintext_of
  undecryptable-plaintext_of py c h =
      rw (four_dots-open_envelope py h.four_dots)
        (rw (undecryptable-decrypt_message py c h) (rw h.no_json refl))

-- The second list is the first without some messages that cannot be decrypted.
pub data Thinned (crypto : Crypto) (c : EncryptionClient) : List String → List String → Type 0 where
  no_message : Thinned crypto c [] []
  skipped :
      (raw : String) (raws kept : List String)
      → IsUndecryptable crypto raw c
      → Thinned crypto c raws kept
      → Thinned crypto c (raw ∷ raws) kept
  same :
      (raw : String) (raws kept : List String)
      → Thinned crypto c raws kept
      → Thinned crypto c (raw ∷ raws) (raw ∷ kept)

module _ (py : Python) (crypto : Crypto) (c : EncryptionClient) where
  read_none :
      (raw : String)
      → plaintext_of py crypto (snapshot c) raw ≡ none
      → read_message py crypto (snapshot c) raw ≡ ok none
  unfolding read_message
  read_none raw h = elim (Bool-cases (nonempty raw)) [
    | inl e ↦ rw (e, read_message) (rw h)
    | inr e ↦ rw (e, read_message)
  ]

  process_from-Thinned :
      (raws kept : List String) (d : EncryptionClient)
      → Thinned crypto c raws kept
      → process_from py crypto (snapshot c) raws d ≡ process_from py crypto (snapshot c) kept d
  unfolding process_from
  process_from-Thinned _ _ d no_message = refl
  process_from-Thinned _ _ d (skipped raw raws kept u t) =
      ap (λ r. and_then (apply_read py crypto r d) (λ _. process_from py crypto (snapshot c) raws))
        (read_none raw (undecryptable-plaintext_of crypto raw py c u))
      ∙ process_from-Thinned raws kept d t
  process_from-Thinned _ _ d (same raw raws kept t) =
      after (apply_read py crypto (read_message py crypto (snapshot c) raw) d)
        (λ e. process_from-Thinned raws kept e t)
    where
      after :
          (out : Result (Unit {0}) × EncryptionClient)
          → ((e : EncryptionClient)
              → process_from py crypto (snapshot c) raws e
                ≡ process_from py crypto (snapshot c) kept e)
          → and_then out (λ _. process_from py crypto (snapshot c) raws)
            ≡ and_then out (λ _. process_from py crypto (snapshot c) kept)
      after (ok _, e) h = h e
      after (err x, e) h = refl

  -- Encrypted messages that neither the context nor a key that is pending when the call begins
  -- decrypts make no difference, wherever they stand and however many they are: the call ends as
  -- it does without them, with the same state and the same exception if there is one.
  pub process_kms_messages-Thinned :
      (raws kept : List String)
      → Thinned crypto c raws kept
      → process_kms_messages py crypto raws c ≡ process_kms_messages py crypto kept c
  unfolding process_kms_messages
  process_kms_messages-Thinned raws kept t = process_from-Thinned raws kept c t
