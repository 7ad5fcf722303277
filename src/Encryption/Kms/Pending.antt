-- ===== src/Encryption/Kms/Pending.antt =====
-- No exchange with the KMS leaves a pending request behind.
use webex_kms_sdk.Base.{
  ℕ, String, ◌≡◌, refl, inl, inr, Bool-cases, Option, none, some, List, [], ◌∷◌,
}
use webex_kms_sdk.Number.{Bytes}
use webex_kms_sdk.Exceptions.{Result, ok, err, and_then}
use webex_kms_sdk.Text.{nonempty}
use webex_kms_sdk.Json.{Python}
use webex_kms_sdk.Core.{CoreHttpClient}
use webex_kms_sdk.Encryption.Crypto.{Crypto, EcPrivateKey, RsaPublicKey}
use webex_kms_sdk.Encryption.Identity.{generate_request_id}
use webex_kms_sdk.Encryption.State.{EcdhContext, EncryptionClient, register_pending_request}
use webex_kms_sdk.Encryption.Uri.{parse_kms_uri}
use webex_kms_sdk.Encryption.Session.{Session, World, await_future, finally}
use webex_kms_sdk.Encryption.Session.Shrinks.{
  Shrinks-refl, Keeps, unchanged, and_then-Keeps, request-Keeps, await_future-Keeps,
  unregister-Shrinks,
}
use webex_kms_sdk.Encryption.Kms.{
  unregister, KmsInfo, get_user_id, fetch_user_id, user_id_of, store_user_id, get_kms_info,
  send_kms_message, answer_of, exchange_message, send_ecdh_request, exchange_with,
  perform_ecdh_exchange, retrieve_in, do_kms_retrieve,
}

module _ (py : Python) (crypto : Crypto) (world : World) (core : CoreHttpClient) where
  finally-Keeps :
      {A : Type 0} (r : String) (key : Option EcPrivateKey) (c b : EncryptionClient)
      (out : Result A × Session)
      → b ≡ (register_pending_request r key c).1
      → Keeps b out
      → Keeps c (finally out (unregister py crypto world core r))
  finally-Keeps r key c b out q h = record {
    shrinks = unregister-Shrinks r key c b out.1.client q h.shrinks;
  }

  store_user_id-Keeps :
      (r : Result String) (s : Session) → Keeps s.client (store_user_id py crypto world core r s)
  store_user_id-Keeps (err e) s = unchanged _ s
  store_user_id-Keeps (ok u) s = record {
    shrinks = record { pending = λ k p h. h; context = refl };
  }

  fetch_user_id-Keeps : (s : Session) → Keeps s.client (fetch_user_id py crypto world core s)
  unfolding fetch_user_id
  fetch_user_id-Keeps s =
      and_then-Keeps s.client _ _
        (request-Keeps py crypto world core "GET" "https://webexapis.com/v1/people/me" none _ s)
        (λ r t. store_user_id-Keeps (user_id_of py crypto world core r) t)

  pub get_user_id-Keeps : (s : Session) → Keeps s.client (get_user_id py crypto world core s)
  unfolding get_user_id
  get_user_id-Keeps s = elim (Bool-cases (nonempty s.client.user_id)) [
    | inl e ↦ rw (e, get_user_id) (unchanged _ s)
    | inr e ↦ rw (e, get_user_id) (fetch_user_id-Keeps s)
  ]

  get_kms_info-Keeps :
      (user_id : String) (s : Session)
      → Keeps s.client (get_kms_info py crypto world core user_id s)
  unfolding get_kms_info
  get_kms_info-Keeps user_id s =
      and_then-Keeps s.client _ _ (request-Keeps py crypto world core "GET" _ none _ s)
        (λ r t. unchanged _ t)

  send_kms_message-Keeps :
      (wrapped destination : String) (s : Session)
      → Keeps s.client (send_kms_message py crypto world core wrapped destination s)
  unfolding send_kms_message
  send_kms_message-Keeps wrapped destination s =
      and_then-Keeps s.client _ _ (request-Keeps py crypto world core "POST" _ _ [] s)
        (λ r t. unchanged _ t)

  module _ {A : Type 0} (destination : String) (future : ℕ) (now : List String → Result A)
      (later : Bytes → Result A) where
    awaited :
        (t : Session)
        → Keeps t.client
            (and_then (await_future py crypto world core future t) (λ b u. (later b, u)))
    awaited t =
        and_then-Keeps t.client _ _ (await_future-Keeps py crypto world core future t)
          (λ b u. unchanged _ u)

    answer_of-Keeps :
        (o : Option (List String)) (t : Session)
        → Keeps t.client (answer_of py crypto world core future now later o t)
    answer_of-Keeps none t = awaited t
    answer_of-Keeps (some []) t = awaited t
    answer_of-Keeps (some (jwe ∷ jwes)) t = unchanged _ t

    exchange_message-Keeps :
        (wrapped : Result String) (s : Session)
        → Keeps s.client
            (exchange_message py crypto world core wrapped destination future now later s)
    exchange_message-Keeps (err e) s = unchanged _ s
    exchange_message-Keeps (ok wrapped) s =
        and_then-Keeps s.client _ _ (send_kms_message-Keeps wrapped destination s) answer_of-Keeps

  send_ecdh_request-Keeps :
      (key : EcPrivateKey) (rsa : RsaPublicKey) (kid cluster user_id : String) (s : Session)
      → Keeps s.client (send_ecdh_request py crypto world core key rsa kid cluster user_id s)
  unfolding send_ecdh_request
  send_ecdh_request-Keeps key rsa kid cluster user_id s =
      finally-Keeps (generate_request_id (world.random s.ticks)) (some key) s.client _ _ refl
        (exchange_message-Keeps _ _ _ _ _ _)

  exchange_with-Keeps :
      (user_id : String) (info : KmsInfo) (r : Result (RsaPublicKey × String)) (s : Session)
      → Keeps s.client (exchange_with py crypto world core user_id info r s)
  exchange_with-Keeps user_id info (err e) s = unchanged _ s
  exchange_with-Keeps user_id info (ok (rsa, kid)) s =
      and_then-Keeps s.client _ _ (send_ecdh_request-Keeps _ rsa kid _ user_id _)
        (λ m t. record { shrinks = Shrinks-refl t.client })

  pub perform_ecdh_exchange-Keeps :
      (s : Session) → Keeps s.client (perform_ecdh_exchange py crypto world core s)
  unfolding perform_ecdh_exchange
  perform_ecdh_exchange-Keeps s = and_then-Keeps s.client _ _ (get_user_id-Keeps s) λ user_id t.
      and_then-Keeps t.client _ _ (get_kms_info-Keeps user_id t)
        λ info u. exchange_with-Keeps user_id info _ u

  -- From the registration to the end of the `try`, for a URI that is accepted, nothing is left.
  retrieve_in-Keeps :
      (key_uri : String) (context : EcdhContext) (user_id request_id : String) (future : ℕ)
      (parts : String × String) (c : EncryptionClient) (s : Session)
      → s.client ≡ (register_pending_request request_id none c).1
      → Keeps c
          (retrieve_in py crypto world core key_uri context user_id request_id future (ok parts) s)
  retrieve_in-Keeps key_uri context user_id request_id future (domain, path) c s e =
      finally-Keeps request_id none c s.client _ e (exchange_message-Keeps _ _ _ _ _ s)

  -- One retrieval of a well-formed URI ends, however it does, with the context as it was and with
  -- no pending request that was not there before.
  pub do_kms_retrieve-Keeps :
      (key_uri : String) (context : EcdhContext) (parts : String × String) (s : Session)
      → parse_kms_uri key_uri ≡ ok parts
      → Keeps s.client (do_kms_retrieve py crypto world core key_uri context s)
  unfolding do_kms_retrieve
  do_kms_retrieve-Keeps key_uri context parts s h =
      and_then-Keeps s.client _ _ (get_user_id-Keeps s)
        (λ user_id t. rw h (retrieve_in-Keeps key_uri context user_id _ _ parts t.client _ refl))
