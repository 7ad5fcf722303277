-- ===== src/Encryption/Identity/Laws.antt =====
-- Identifiers that are decoded, and the errors that end an ECDH session.
use webex_kms_sdk.Base.{
  String, ◌<>◌, ◌≡◌, ◌⊎◌, refl, ap, ◌∙◌, inl, inr, Bool, true, false, ◌||◌, Bool-cases, arith,
}
use webex_kms_sdk.Number.{Bytes}
use webex_kms_sdk.Exceptions.{Exception, kms_protocol_error, Result, ok, err}
use webex_kms_sdk.Text.{includes, after_last}
use webex_kms_sdk.Text.Laws.{includes-append}
use webex_kms_sdk.Json.{Python}
use webex_kms_sdk.Encryption.Base64.{b64url_decode}
use webex_kms_sdk.Encryption.Identity.{
  is_ecdh_session_error, is_uuid, uuid_or, decoded_id, decode_webex_id,
}

module _ (py : Python) where
  of_uuid : (v : String) → is_uuid v ≡ true → decode_webex_id py v ≡ v
  unfolding decode_webex_id
  of_uuid v h = rw h

  of_other :
      (v : String) → is_uuid v ≡ false → decode_webex_id py v ≡ decoded_id py v (b64url_decode v)
  unfolding decode_webex_id
  of_other v h = rw h

  uuid_or-settled :
      (candidate v : String) → (is_uuid (uuid_or candidate v) ≡ true) ⊎ (uuid_or candidate v ≡ v)
  uuid_or-settled candidate v = elim (Bool-cases (is_uuid candidate)) [
    | inl e ↦ inl (rw (e, uuid_or) e)
    | inr e ↦ inr (rw (e, uuid_or))
  ]

  decoded_id-settled :
      (v : String) (r : Result Bytes)
      → (is_uuid (decoded_id py v r) ≡ true) ⊎ (decoded_id py v r ≡ v)
  decoded_id-settled v (err e) = inr refl
  decoded_id-settled v (ok bs) = by_text (py.decode bs) refl
    where
      by_text :
          (t : Result String)
          → py.decode bs ≡ t
          → (is_uuid (decoded_id py v (ok bs)) ≡ true) ⊎ (decoded_id py v (ok bs) ≡ v)
      by_text (err e) q = inr (rw (q, decoded_id))
      by_text (ok t) q = rw (q, decoded_id) (uuid_or-settled (after_last "/" t) v)

  -- Decoding an identifier a second time gives what the first time gave.
  pub decode_webex_id_idempotent :
      (v : String) → decode_webex_id py (decode_webex_id py v) ≡ decode_webex_id py v
  decode_webex_id_idempotent v = elim (Bool-cases (is_uuid v)) [
    | inl e ↦ rw (of_uuid v e) (of_uuid v e)
    | inr e ↦ elim (decoded_id-settled v (b64url_decode v)) [
      | inl u ↦ of_uuid (decode_webex_id py v) (rw (of_other v e) u)
      | inr same ↦ ap (decode_webex_id py) (of_other v e ∙ same)
    ]
  ]

-- An error whose text says that a request failed with a status ends the session.
pub is_ecdh_session_error_status :
    (before after : String)
    → is_ecdh_session_error (kms_protocol_error (before <> ("failed with status" <> after))) ≡ true
unfolding is_ecdh_session_error webex_kms_sdk.Exceptions.exception_text
is_ecdh_session_error_status before after = rw (includes-append before "failed with status" after) (
    or_true3 (includes (before <> ("failed with status" <> after)) "status 400")
      (includes (before <> ("failed with status" <> after)) "status 403")
      (includes (before <> ("failed with status" <> after)) "error decrypting"))
  where
    or_true3 : (a b c : Bool) → (a || (b || (c || true))) ≡ true
    or_true3 a b c = ground arith
