-- ===== src/Encryption/Retrieval/Laws.antt =====
-- What a caller of `get_key` can rely on.
use webex_kms_sdk.Base.{
  ℕ, String, ◌≡◌, refl, subst, inl, inr, false, Bool-cases, Option-cases, Option, none, some, ◌==◌,
  string_eq, nat_eq,
}
use webex_kms_sdk.Dict.{lookup, lookup-insert_self}
use webex_kms_sdk.Exceptions.{Exception, is_exception, Result, ok, err, Action, and_then}
use webex_kms_sdk.Json.{Python}
use webex_kms_sdk.Models.Jwk.{Key}
use webex_kms_sdk.Core.{CoreHttpClient}
use webex_kms_sdk.Encryption.Crypto.{Crypto}
use webex_kms_sdk.Encryption.Uri.{parse_kms_uri}
use webex_kms_sdk.Encryption.Identity.{is_ecdh_session_error}
use webex_kms_sdk.Encryption.State.{EcdhContext, EncryptionClient}
use webex_kms_sdk.Encryption.Session.{Session, World, on_client, tick, finally}
use webex_kms_sdk.Encryption.Session.Shrinks.{NoNew, Keeps}
use webex_kms_sdk.Encryption.Kms.{
  is_fresh, invalidate_ecdh, perform_ecdh_exchange, create_ecdh, reuse_or_create, store_context,
  get_or_create_ecdh, do_kms_retrieve,
}
use webex_kms_sdk.Encryption.Kms.Pending.{perform_ecdh_exchange-Keeps, do_kms_retrieve-Keeps}
use webex_kms_sdk.Encryption.Retrieval.{
  on_exception, clear_inflight, retry_retrieve, recover, retrieve_key_via_ecdh, store_key,
  retrieve_and_cache_key, cached_key, start_task, join_or_start, retrieve_checked, get_key,
}

-- Every pending request that a call leaves was there before it.
record NoLeak {A : Type 0} (c : EncryptionClient) (out : Result A × Session) : Type 0 where
  no_new : NoNew c out.1.client

no_leak : {A : Type 0} (r : Result A) (s : Session) → NoLeak s.client (r, s)
no_leak r s = record { no_new = λ k p h. h }

of_Keeps :
    {A : Type 0} {c : EncryptionClient} {out : Result A × Session} → Keeps c out → NoLeak c out
of_Keeps h = record { no_new = h.shrinks.pending }

and_then-NoLeak :
    {A B : Type 0} (c : EncryptionClient) (x : Result A × Session) (f : A → Action Session B)
    → NoLeak c x
    → ((a : A) (s : Session) → NoLeak s.client (f a s))
    → NoLeak c (and_then x f)
and_then-NoLeak c (ok a, s) f h k = record { no_new = λ r p q. h.no_new r p ((k a s).no_new r p q) }
and_then-NoLeak c (err e, s) f h k = record { no_new = h.no_new }

on_exception-NoLeak :
    {A : Type 0} (c : EncryptionClient) (x : Result A × Session) (f : Exception → Action Session A)
    → NoLeak c x
    → ((e : Exception) (s : Session) → NoLeak s.client (f e s))
    → NoLeak c (on_exception x f)
on_exception-NoLeak c (ok a, s) f h k = record { no_new = h.no_new }
on_exception-NoLeak c (err e, s) f h k = elim (Bool-cases (is_exception e)) [
  | inl t ↦ rw (t, on_exception) (record { no_new = λ r p q. h.no_new r p ((k e s).no_new r p q) })
  | inr t ↦ rw (t, on_exception) (record { no_new = h.no_new })
]

module _ (py : Python) (crypto : Crypto) (world : World) (core : CoreHttpClient) where
  create_ecdh-NoLeak : (s : Session) → NoLeak s.client (create_ecdh py crypto world core s)
  unfolding invalidate_ecdh
  create_ecdh-NoLeak s =
      and_then-NoLeak s.client
        (perform_ecdh_exchange py crypto world core (invalidate_ecdh py crypto world core s))
        (store_context py crypto world core)
        (record {
          no_new =
              (perform_ecdh_exchange-Keeps py crypto world core
                (invalidate_ecdh py crypto world core s)).shrinks.pending;
        })
        (λ context t. record { no_new = λ k p h. h })

  get_or_create_ecdh-NoLeak :
      (s : Session) → NoLeak s.client (get_or_create_ecdh py crypto world core s)
  unfolding get_or_create_ecdh
  get_or_create_ecdh-NoLeak s = by_cached s.client.ecdh_context
    where
      by_cached :
          (o : Option EcdhContext) → NoLeak s.client (reuse_or_create py crypto world core o s)
      by_cached none = create_ecdh-NoLeak s
      by_cached (some context) = elim (Bool-cases (is_fresh (world.clock s.ticks) context)) [
        | inl f ↦ rw (f, reuse_or_create) (record { no_new = λ k p h. h })
        | inr f ↦ rw (f, reuse_or_create) (record { no_new = (create_ecdh-NoLeak (tick s)).no_new })
      ]

  module _ (key_uri : String) (parts : String × String)
      (valid : parse_kms_uri key_uri ≡ ok parts) where
    retrieve-NoLeak :
        (context : EcdhContext) (s : Session)
        → NoLeak s.client (do_kms_retrieve py crypto world core key_uri context s)
    retrieve-NoLeak context s =
        of_Keeps (do_kms_retrieve-Keeps py crypto world core key_uri context parts s valid)

    retry-NoLeak :
        (e : Exception) (context : EcdhContext) (s : Session)
        → NoLeak s.client (retry_retrieve py crypto world core key_uri e context s)
    retry-NoLeak e context s =
        on_exception-NoLeak s.client _ _ (retrieve-NoLeak context s) (λ f t. no_leak _ t)

    recover-NoLeak :
        (context : EcdhContext) (e : Exception) (s : Session)
        → NoLeak s.client (recover py crypto world core key_uri context e s)
    unfolding invalidate_ecdh
    recover-NoLeak context e s = elim (Bool-cases (is_ecdh_session_error e)) [
      | inl t ↦
          rw (t, recover)
            (and_then-NoLeak s.client
              (get_or_create_ecdh py crypto world core (invalidate_ecdh py crypto world core s))
              (retry_retrieve py crypto world core key_uri e)
              (record {
                no_new =
                    (get_or_create_ecdh-NoLeak (invalidate_ecdh py crypto world core s)).no_new;
              })
              (retry-NoLeak e))
      | inr t ↦ rw (t, recover) (retry-NoLeak e context s)
    ]

    retrieve_key_via_ecdh-NoLeak :
        (s : Session) → NoLeak s.client (retrieve_key_via_ecdh py crypto world core key_uri s)
    unfolding retrieve_key_via_ecdh
    retrieve_key_via_ecdh-NoLeak s =
        and_then-NoLeak s.client _ _ (get_or_create_ecdh-NoLeak s) λ context t.
          on_exception-NoLeak t.client _ _ (retrieve-NoLeak context t) (recover-NoLeak context)

  clear_inflight-pending :
      (key_uri : String) (task : ℕ) (c : EncryptionClient)
      → (clear_inflight key_uri task c).pending_requests ≡ c.pending_requests
  clear_inflight-pending key_uri task c = elim (Option-cases (lookup key_uri c.inflight_keys)) [
    | inl e ↦ rw (e, clear_inflight)
    | inr (other, e) ↦ elim (Bool-cases (other == task)) [
      | inl t ↦ rw (e, clear_inflight) (rw t)
      | inr t ↦ rw (e, clear_inflight) (rw t)
    ]
  ]

  clear_inflight-key_cache :
      (key_uri : String) (task : ℕ) (c : EncryptionClient)
      → (clear_inflight key_uri task c).key_cache ≡ c.key_cache
  clear_inflight-key_cache key_uri task c = elim (Option-cases (lookup key_uri c.inflight_keys)) [
    | inl e ↦ rw (e, clear_inflight)
    | inr (other, e) ↦ elim (Bool-cases (other == task)) [
      | inl t ↦ rw (e, clear_inflight) (rw t)
      | inr t ↦ rw (e, clear_inflight) (rw t)
    ]
  ]

  store_key-NoLeak :
      (key_uri : String) (key : Key) (s : Session)
      → NoLeak s.client (Result.ok key, on_client (store_key py crypto world core key_uri key) s)
  store_key-NoLeak key_uri key s = elim (Bool-cases core.config.disable_key_cache) [
    | inl t ↦ record { no_new = rw (t, store_key) (λ k p h. h) }
    | inr t ↦ record { no_new = rw (t, store_key) (λ k p h. h) }
  ]

  start_task-NoLeak :
      (key_uri : String) (parts : String × String) (s : Session)
      → parse_kms_uri key_uri ≡ ok parts
      → NoLeak s.client (start_task py crypto world core key_uri s)
  unfolding retrieve_and_cache_key
  start_task-NoLeak key_uri parts s valid = record {
    no_new = λ k p h. (chain _).no_new k p (rw (clear_inflight-pending key_uri s.ticks _) at h);
  }
    where
      chain :
          (t : Session) → NoLeak t.client (retrieve_and_cache_key py crypto world core key_uri t)
      chain t =
          and_then-NoLeak t.client (retrieve_key_via_ecdh py crypto world core key_uri t) _
            (retrieve_key_via_ecdh-NoLeak key_uri parts valid t) (store_key-NoLeak key_uri)

  -- However a call of `get_key` ends that joins no task of another caller, it leaves no pending
  -- request behind: not after a timeout, an error, a retry or a refused URI.
  pub get_key_leaves_no_request :
      (key_uri : String) (s : Session)
      → lookup key_uri s.client.inflight_keys ≡ none
      → NoNew s.client (get_key py crypto world core key_uri s).1.client
  unfolding get_key
  get_key_leaves_no_request key_uri s alone =
      elim (Option-cases (cached_key py crypto world core key_uri s.client)) [
        | inr (key, e) ↦ rw (e, get_key) (λ k p h. h)
        | inl e ↦ rw (e, get_key) (checked (parse_kms_uri key_uri) refl)
      ]
    where
      checked :
          (r : Result (String × String))
          → parse_kms_uri key_uri ≡ r
          → NoNew s.client (retrieve_checked py crypto world core key_uri r s).1.client
      checked (err e) q = λ k p h. h
      checked (ok parts) q =
          rw (alone, join_or_start) ((start_task-NoLeak key_uri parts s q).no_new)

  -- The key of a result is in the cache.
  abbrev GaveCached : String → Result Key × Session → Type 0
  GaveCached key_uri (ok key, s) = cached_key py crypto world core key_uri s.client ≡ some key
  GaveCached key_uri (err e, s) = Unit

  stored-GaveCached :
      (key_uri : String) (task : ℕ) (out : Result Key × Session)
      → core.config.disable_key_cache ≡ false
      → GaveCached key_uri (
          finally
            (and_then out
              (λ key t. (ok key, on_client (store_key py crypto world core key_uri key) t)))
            (on_client (clear_inflight key_uri task)))
  stored-GaveCached key_uri task (err e, s) enabled = tt
  stored-GaveCached key_uri task (ok key, s) enabled =
      rw (enabled, cached_key)
        (rw (clear_inflight-key_cache key_uri task _)
          (lookup-insert_self key_uri key s.client.key_cache))

  get_key-GaveCached :
      (key_uri : String) (s : Session)
      → core.config.disable_key_cache ≡ false
      → lookup key_uri s.client.inflight_keys ≡ none
      → GaveCached key_uri (get_key py crypto world core key_uri s)
  unfolding get_key retrieve_and_cache_key
  get_key-GaveCached key_uri s enabled alone =
      elim (Option-cases (cached_key py crypto world core key_uri s.client)) [
        | inr (key, e) ↦ rw (e, get_key) e
        | inl e ↦ rw (e, get_key) (checked (parse_kms_uri key_uri))
      ]
    where
      checked :
          (r : Result (String × String))
          → GaveCached key_uri (retrieve_checked py crypto world core key_uri r s)
      checked (err e) = tt
      checked (ok parts) = rw (alone, join_or_start) (stored-GaveCached key_uri s.ticks _ enabled)

  -- A key that `get_key` gave, with the cache in use, is given again from the cache: the second
  -- call gives the same key, sends nothing and changes nothing.
  pub get_key_again :
      (key_uri : String) (key : Key) (s s' : Session)
      → core.config.disable_key_cache ≡ false
      → lookup key_uri s.client.inflight_keys ≡ none
      → Path (Result Key × Session) (get_key py crypto world core key_uri s) (ok key, s')
      → Path (Result Key × Session) (get_key py crypto world core key_uri s') (ok key, s')
  unfolding get_key
  get_key_again key_uri key s s' enabled alone h =
      let cached : cached_key py crypto world core key_uri s'.client ≡ some key =
        subst (GaveCached key_uri) h (get_key-GaveCached key_uri s enabled alone) in
      rw (cached, get_key)
