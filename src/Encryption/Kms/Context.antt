-- ===== src/Encryption/Kms/Context.antt =====
-- The cached ECDH context.
use webex_kms_sdk.Base.{◌≡◌, refl, subst, inl, inr, true, Bool-cases, Option, none, some}
use webex_kms_sdk.Exceptions.{Result, ok, err, and_then}
use webex_kms_sdk.Json.{Python}
use webex_kms_sdk.Core.{CoreHttpClient}
use webex_kms_sdk.Encryption.Crypto.{Crypto}
use webex_kms_sdk.Encryption.State.{EcdhContext}
use webex_kms_sdk.Encryption.Session.{Session, World, tick}
use webex_kms_sdk.Encryption.Kms.{
  is_fresh, perform_ecdh_exchange, invalidate_ecdh, store_context, create_ecdh, reuse_or_create,
  get_or_create_ecdh,
}
use webex_kms_sdk.Encryption.Kms.Pending.{perform_ecdh_exchange-Keeps}

-- The context that a result leaves cached: its own, or none.
abbrev pub context_left : Result EcdhContext → Option EcdhContext
context_left (ok context) = some context
context_left (err _) = none

module _ (py : Python) (crypto : Crypto) (world : World) (core : CoreHttpClient) where
  store-context_left :
      (out : Result EcdhContext × Session)
      → out.1.client.ecdh_context ≡ none
      → let stored = and_then out (store_context py crypto world core) in
        stored.1.client.ecdh_context ≡ context_left stored.0
  store-context_left (ok context, s) h = refl
  store-context_left (err e, s) h = h

  create-context_left :
      (s : Session)
      → let out = create_ecdh py crypto world core s in
        out.1.client.ecdh_context ≡ context_left out.0
  unfolding invalidate_ecdh
  create-context_left s =
      let cleared = invalidate_ecdh py crypto world core s in
      let exchanged = perform_ecdh_exchange-Keeps py crypto world core cleared in
      store-context_left (perform_ecdh_exchange py crypto world core cleared)
        exchanged.shrinks.context

  -- The context that the call gives is the one that is cached afterwards, and where it raises no
  -- context is cached: an expired one is never left, nor one of an exchange that failed.
  pub get_or_create_ecdh-context_left :
      (s : Session)
      → let out = get_or_create_ecdh py crypto world core s in
        out.1.client.ecdh_context ≡ context_left out.0
  unfolding get_or_create_ecdh
  get_or_create_ecdh-context_left s = by_cached s.client.ecdh_context refl
    where
      by_cached :
          (o : Option EcdhContext)
          → s.client.ecdh_context ≡ o
          → let out = reuse_or_create py crypto world core o s in
            out.1.client.ecdh_context ≡ context_left out.0
      by_cached none e = create-context_left s
      by_cached (some context) e = elim (Bool-cases (is_fresh (world.clock s.ticks) context)) [
        | inl f ↦ rw (f, reuse_or_create) e
        | inr f ↦ rw (f, reuse_or_create) (create-context_left (tick s))
      ]

  -- A context that a call gave is given again by a call at a time when it has not expired, and
  -- that call sends nothing and changes nothing but the clock.
  pub get_or_create_ecdh_again :
      (s s' : Session) (context : EcdhContext)
      → Path
          (Result EcdhContext × Session)
          (get_or_create_ecdh py crypto world core s)
          (ok context, s')
      → is_fresh (world.clock s'.ticks) context ≡ true
      → Path
          (Result EcdhContext × Session)
          (get_or_create_ecdh py crypto world core s')
          (ok context, tick s')
  unfolding get_or_create_ecdh
  get_or_create_ecdh_again s s' context h f =
      let stored : s'.client.ecdh_context ≡ some context =
        subst
          (λ (out : Result EcdhContext × Session). out.1.client.ecdh_context ≡ context_left out.0) h
          (get_or_create_ecdh-context_left s) in
      rw (stored, reuse_or_create) (rw f)
