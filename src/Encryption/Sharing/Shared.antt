-- ===== src/Encryption/Sharing/Shared.antt =====
-- Callers of `get_key` at once share the task of a URI.
use webex_kms_sdk.Base.{
  ℕ, String, ◌≡◌, refl, sym, ap, subst, ◌∙◌, inl, inr, Bool, true, false, Bool-cases, Option, none,
  some, some-inj, is_some, [], Eq, ◌==◌, ==→≡, ==_refl, string_eq, nat_eq, if◌then◌else◌,
}
use webex_kms_sdk.Dict.{lookup, insert, erase, lookup-nil, lookup-insert, lookup-erase}
use webex_kms_sdk.Exceptions.{Result, ok, err}
use webex_kms_sdk.Json.{Python}
use webex_kms_sdk.Models.Jwk.{Key}
use webex_kms_sdk.Core.{CoreHttpClient}
use webex_kms_sdk.Encryption.Uri.{parse_kms_uri}
use webex_kms_sdk.Encryption.Crypto.{Crypto}
use webex_kms_sdk.Encryption.State.{EncryptionClient}
use webex_kms_sdk.Encryption.Session.{World}
use webex_kms_sdk.Encryption.Retrieval.{clear_inflight, store_key, cached_key}
use webex_kms_sdk.Encryption.Sharing.{
  Callers, join_or_create, ask_checked, ask_cached, ask, collect, finish, Step, asks, finishes,
  resumes, others, Steps, done, then_step,
}

-- Each task that runs is the inflight task of its URI.
abbrev pub IsShared : Callers → Type 0
IsShared s =
    (task : ℕ) (key_uri : String)
    → lookup task s.running ≡ some key_uri
    → lookup key_uri s.client.inflight_keys ≡ some task

module _ {ℓ} {A : Type ℓ} ⦃e : Eq A⦄ where
  ==_ne : (a b : A) → (a == b) ≡ false → a ≡ b → ⊥
  ==_ne a b h q = let k : (a == b) ≡ true = subst (λ x. (a == x) ≡ true) q (==_refl a) in cc

join_or_create-IsShared :
    (caller : ℕ) (key_uri : String) (o : Option ℕ) (s : Callers)
    → lookup key_uri s.client.inflight_keys ≡ o
    → IsShared s
    → IsShared (join_or_create caller key_uri o s)
unfolding join_or_create
join_or_create-IsShared caller key_uri (some t) s e h = h
join_or_create-IsShared caller key_uri none s e h = shared
  where
    by_task :
        (task : ℕ) (u : String) (b c : Bool)
        → (task == s.next_task) ≡ b
        → (u == key_uri) ≡ c
        → (if b then some key_uri else lookup task s.running) ≡ some u
        → (if c then some s.next_task else lookup u s.client.inflight_keys) ≡ some task
    by_task task u true true p q k = ap some (sym (==→≡ task s.next_task p))
    by_task task u true false p q k = absurd (==_ne u key_uri q (sym (some-inj key_uri u k)))
    by_task task u false true p q k = absurd (
        let l : none ≡ some task =
          sym e ∙ ap (λ x. lookup x s.client.inflight_keys) (sym (==→≡ u key_uri q)) ∙ h task u k in
        cc)
    by_task task u false false p q k = h task u k

    shared :
        (task : ℕ) (u : String)
        → lookup task (insert s.next_task key_uri s.running) ≡ some u
        → lookup u (insert key_uri s.next_task s.client.inflight_keys) ≡ some task
    shared task u r =
        lookup-insert u key_uri s.next_task s.client.inflight_keys
        ∙ by_task task u (task == s.next_task) (u == key_uri) refl refl
            (sym (lookup-insert task s.next_task key_uri s.running) ∙ r)

-- The entry of a task that runs no more can be cleared.
clear-IsShared :
    (task : ℕ) (key_uri : String) (s : Callers)
    → is_some (lookup task s.running) ≡ false
    → IsShared s
    → IsShared (record s { client = clear_inflight key_uri task s.client })
clear-IsShared task key_uri s n h = by_entry (lookup key_uri s.client.inflight_keys) refl
  where
    cleared : Option ℕ → EncryptionClient
    cleared o = elim o [
      | none ↦ s.client
      | some other ↦
          if other == task
          then record s.client { inflight_keys = erase key_uri s.client.inflight_keys }
          else s.client
    ]

    by_uri :
        (t : ℕ) (u : String) (b : Bool)
        → lookup key_uri s.client.inflight_keys ≡ some task
        → (u == key_uri) ≡ b
        → lookup t s.running ≡ some u
        → (if b then none else lookup u s.client.inflight_keys) ≡ some t
    by_uri t u false e q r = h t u r
    by_uri t u true e q r =
        let same : some task ≡ some t =
          sym e ∙ ap (λ x. lookup x s.client.inflight_keys) (sym (==→≡ u key_uri q)) ∙ h t u r in
        absurd (
          let k : false ≡ true =
            sym n ∙ ap (λ x. is_some (lookup x s.running)) (some-inj task t same) ∙ ap is_some r in
          cc)

    by_flag :
        (other : ℕ) (b : Bool)
        → (other == task) ≡ b
        → lookup key_uri s.client.inflight_keys ≡ some other
        → IsShared (record s {
          client =
              if b
              then record s.client { inflight_keys = erase key_uri s.client.inflight_keys }
              else s.client;
        })
    by_flag other false p e = h
    by_flag other true p e = λ t u r.
        lookup-erase u key_uri s.client.inflight_keys
        ∙ by_uri t u (u == key_uri) (e ∙ ap some (==→≡ other task p)) refl r

    by_entry :
        (o : Option ℕ)
        → lookup key_uri s.client.inflight_keys ≡ o
        → IsShared (record s { client = cleared o })
    by_entry none e = h
    by_entry (some other) e = by_flag other (other == task) refl e

module _ (py : Python) (crypto : Crypto) (world : World) (core : CoreHttpClient) where
  ask-IsShared :
      (caller : ℕ) (key_uri : String) (s : Callers)
      → IsShared s
      → IsShared (ask py crypto world core caller key_uri s)
  unfolding ask
  ask-IsShared caller key_uri s h = by_cache (cached_key py crypto world core key_uri s.client)
    where
      by_uri : (r : Result (String × String)) → IsShared (ask_checked caller key_uri r s)
      by_uri (err e) = h
      by_uri (ok _) =
          join_or_create-IsShared caller key_uri (lookup key_uri s.client.inflight_keys) s refl h

      by_cache : (o : Option Key) → IsShared (ask_cached py crypto world core caller key_uri o s)
      by_cache (some key) = h
      by_cache none = by_uri (parse_kms_uri key_uri)

  -- A task less.
  erase-IsShared :
      (task : ℕ) (s : Callers) (c : EncryptionClient)
      → c.inflight_keys ≡ s.client.inflight_keys
      → IsShared s
      → (t : ℕ) (u : String) → lookup t (erase task s.running) ≡ some u
      → lookup u c.inflight_keys ≡ some t
  erase-IsShared task s c e h t u r =
      ap (λ d. lookup u d) e ∙ by_task (t == task) (sym (lookup-erase t task s.running) ∙ r)
    where
      by_task :
          (b : Bool)
          → (if b then none else lookup t s.running) ≡ some u
          → lookup u s.client.inflight_keys ≡ some t
      by_task true k = absurd (let l : none ≡ some u = k in cc)
      by_task false k = h t u k

  pub store_key-inflight :
      (key_uri : String) (key : Key) (c : EncryptionClient)
      → (store_key py crypto world core key_uri key c).inflight_keys ≡ c.inflight_keys
  store_key-inflight key_uri key c = elim (Bool-cases core.config.disable_key_cache) [
    | inl e ↦ rw (e, store_key)
    | inr e ↦ rw (e, store_key)
  ]

  finish-IsShared :
      (task : ℕ) (key_uri : String) (r : Result Key) (s : Callers)
      → IsShared s
      → IsShared (finish py crypto world core task key_uri r s)
  unfolding finish
  finish-IsShared task key_uri (err e) s h = erase-IsShared task s s.client refl h
  finish-IsShared task key_uri (ok key) s h =
      erase-IsShared task s (store_key py crypto world core key_uri key s.client)
        (store_key-inflight key_uri key s.client) h

  collect-IsShared :
      (caller task : ℕ) (key_uri : String) (o : Option (Result Key)) (s : Callers)
      → is_some (lookup task s.running) ≡ false
      → IsShared s
      → IsShared (collect caller task key_uri o s)
  unfolding collect
  collect-IsShared caller task key_uri none s n h = h
  collect-IsShared caller task key_uri (some r) s n h = clear-IsShared task key_uri s n h

  Step-IsShared : (s t : Callers) → Step py crypto world core s t → IsShared s → IsShared t
  Step-IsShared s _ (asks caller key_uri) h = ask-IsShared caller key_uri s h
  Step-IsShared s _ (finishes task key_uri r e) h = finish-IsShared task key_uri r s h
  Step-IsShared s _ (resumes caller task key_uri e n) h =
      collect-IsShared caller task key_uri (lookup task s.outcomes) s n h
  Step-IsShared s _ (others c e) h = λ t u r. ap (λ d. lookup u d) e ∙ h t u r

  pub Steps-IsShared : (s t : Callers) → IsShared s → Steps py crypto world core s t → IsShared t
  Steps-IsShared s _ h done = h
  Steps-IsShared s _ h (then_step {t} {u} run step) =
      Step-IsShared t u step (Steps-IsShared s t h run)

  -- After any steps of any number of callers from a state in which no task runs, at most one task
  -- runs for each URI, and it is its inflight task, the one that the next caller joins.
  pub Steps-shared :
      (s t : Callers) (task other : ℕ) (key_uri : String)
      → s.running ≡ []
      → Steps py crypto world core s t
      → lookup task t.running ≡ some key_uri
      → lookup other t.running ≡ some key_uri
      → (task ≡ other) × (lookup key_uri t.client.inflight_keys ≡ some task)
  Steps-shared s t task other key_uri e run a b =
      let h =
        Steps-IsShared s t (λ x u r. absurd (none_running x u (sym (ap (λ d. lookup x d) e) ∙ r)))
          run in
      (some-inj task other (sym (h task key_uri a) ∙ h other key_uri b), h task key_uri a)
    where
      none_running : (x : ℕ) (u : String) → lookup x [] ≡ some u → ⊥
      none_running x u r = let k : none ≡ some u = sym (lookup-nil x) ∙ r in cc
