-- ===== src/Encryption/Sharing/Reached.antt =====
-- In every state that steps of the callers reach, the awaited tasks run or have left an outcome.
use webex_kms_sdk.Base.{
  ℕ, String, ◌≡◌, refl, sym, ap, ◌∙◌, Bool, true, false, Option, none, some, ◌==◌, string_eq,
  nat_eq, if◌then◌else◌,
}
use webex_kms_sdk.Dict.{lookup, erase}
use webex_kms_sdk.Exceptions.{Result, ok, err}
use webex_kms_sdk.Json.{Python}
use webex_kms_sdk.Models.Jwk.{Key}
use webex_kms_sdk.Core.{CoreHttpClient}
use webex_kms_sdk.Encryption.Uri.{parse_kms_uri}
use webex_kms_sdk.Encryption.Crypto.{Crypto}
use webex_kms_sdk.Encryption.State.{EncryptionClient}
use webex_kms_sdk.Encryption.Session.{World}
use webex_kms_sdk.Encryption.Retrieval.{clear_inflight, store_key, cached_key}
use webex_kms_sdk.Encryption.Sharing.{
  Callers, ask_checked, ask_cached, ask, collect, finish, Step, asks, finishes, resumes, others,
  Steps, done, then_step,
}
use webex_kms_sdk.Encryption.Sharing.Shared.{store_key-inflight}
use webex_kms_sdk.Encryption.Sharing.Answered.{
  lookup-erase_sub, IsAnswerable, answer-IsAnswerable, join_or_create-IsAnswerable, ended-IsOwn,
}

-- Clearing an entry leaves no new one.
clear_inflight-sub :
    (key_uri : String) (task : ℕ) (c : EncryptionClient) (u : String) (t : ℕ)
    → lookup u (clear_inflight key_uri task c).inflight_keys ≡ some t
    → lookup u c.inflight_keys ≡ some t
clear_inflight-sub key_uri task c u t q = by_entry (lookup key_uri c.inflight_keys) q
  where
    by_flag :
        (b : Bool)
        → lookup u
            (if b
              then record c { inflight_keys = erase key_uri c.inflight_keys }
              else c).inflight_keys
          ≡ some t
        → lookup u c.inflight_keys ≡ some t
    by_flag true p = lookup-erase_sub u key_uri c.inflight_keys t p
    by_flag false p = p

    cleared : Option ℕ → EncryptionClient
    cleared o = elim o [
      | none ↦ c
      | some other ↦
          if other == task then record c { inflight_keys = erase key_uri c.inflight_keys } else c
    ]

    by_entry :
        (o : Option ℕ)
        → lookup u (cleared o).inflight_keys ≡ some t
        → lookup u c.inflight_keys ≡ some t
    by_entry none p = p
    by_entry (some other) p = by_flag (other == task) p

collect-IsAnswerable :
    (caller task : ℕ) (key_uri : String) (o : Option (Result Key)) (s : Callers)
    → IsAnswerable s
    → IsAnswerable (collect caller task key_uri o s)
unfolding collect
collect-IsAnswerable caller task key_uri none s h = h
collect-IsAnswerable caller task key_uri (some r) s h =
    answer-IsAnswerable caller r (record s { client = clear_inflight key_uri task s.client })
      (record {
        entries = λ u t q. h.entries u t (clear_inflight-sub key_uri task s.client u t q);
        waiters = h.waiters;
      })

module _ (py : Python) (crypto : Crypto) (world : World) (core : CoreHttpClient) where
  ask-IsAnswerable :
      (caller : ℕ) (key_uri : String) (s : Callers)
      → IsAnswerable s
      → IsAnswerable (ask py crypto world core caller key_uri s)
  unfolding ask
  ask-IsAnswerable caller key_uri s h = by_cache (cached_key py crypto world core key_uri s.client)
    where
      by_uri : (r : Result (String × String)) → IsAnswerable (ask_checked caller key_uri r s)
      by_uri (err e) = answer-IsAnswerable caller (err e) s h
      by_uri (ok _) =
          join_or_create-IsAnswerable caller key_uri (lookup key_uri s.client.inflight_keys) s refl
            h

      by_cache :
          (o : Option Key) → IsAnswerable (ask_cached py crypto world core caller key_uri o s)
      by_cache (some key) = answer-IsAnswerable caller (ok key) s h
      by_cache none = by_uri (parse_kms_uri key_uri)

  finish-IsAnswerable :
      (task : ℕ) (key_uri : String) (r : Result Key) (s : Callers)
      → IsAnswerable s
      → IsAnswerable (finish py crypto world core task key_uri r s)
  unfolding finish
  finish-IsAnswerable task key_uri (err e) s h = record {
    entries = λ u t q. ended-IsOwn task t u (err e) s s.client (h.entries u t q);
    waiters = λ c t u q. ended-IsOwn task t u (err e) s s.client (h.waiters c t u q);
  }
  finish-IsAnswerable task key_uri (ok key) s h =
      let c = store_key py crypto world core key_uri key s.client in
      record {
        entries = λ u t q. ended-IsOwn task t u (ok key) s c (
            h.entries u t (
              ap (λ d. lookup u d)
                (sym (store_key-inflight py crypto world core key_uri key s.client))
              ∙ q));
        waiters = λ x t u q. ended-IsOwn task t u (ok key) s c (h.waiters x t u q);
      }

  Step-IsAnswerable :
      (s t : Callers) → Step py crypto world core s t → IsAnswerable s → IsAnswerable t
  Step-IsAnswerable s _ (asks caller key_uri) h = ask-IsAnswerable caller key_uri s h
  Step-IsAnswerable s _ (finishes task key_uri r e) h = finish-IsAnswerable task key_uri r s h
  Step-IsAnswerable s _ (resumes caller task key_uri e n) h =
      collect-IsAnswerable caller task key_uri (lookup task s.outcomes) s h
  Step-IsAnswerable s _ (others c e) h = record {
    entries = λ u t q. h.entries u t (ap (λ d. lookup u d) (sym e) ∙ q);
    waiters = h.waiters;
  }

  pub Steps-IsAnswerable :
      (s t : Callers) → IsAnswerable s → Steps py crypto world core s t → IsAnswerable t
  Steps-IsAnswerable s _ h done = h
  Steps-IsAnswerable s _ h (then_step {t} {u} run step) =
      Step-IsAnswerable t u step (Steps-IsAnswerable s t h run)
