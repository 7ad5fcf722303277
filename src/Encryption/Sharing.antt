-- ===== src/Encryption/Sharing.antt =====
-- Several callers of `EncryptionClient.get_key` at once, of `src/webex_kms_sdk/encryption.py`: what
-- each does up to the task that it awaits, the end of a task, and what a caller does after it.
pub mod Reached
pub mod Shared
pub mod Answered
pub mod Progress
use webex_kms_sdk.Base.{
  ℕ, ◌+◌, String, ◌≡◌, refl, sym, ap, ◌∙◌, inl, inr, Bool, true, false, Bool-cases, Option-cases,
  Option, none, some, some-inj, is_some, List, [], ◌∷◌, ◌++◌, ◌==◌, ==→≡, string_eq, nat_eq,
  if◌then◌else◌, if-either,
}
use webex_kms_sdk.Dict.{Dict, lookup, insert, erase, lookup-insert, lookup-erase}
use webex_kms_sdk.Exceptions.{Exception, Result, ok, err}
use webex_kms_sdk.Json.{Python}
use webex_kms_sdk.Models.Jwk.{Key}
use webex_kms_sdk.Core.{CoreHttpClient}
use webex_kms_sdk.Encryption.Uri.{parse_kms_uri}
use webex_kms_sdk.Encryption.Crypto.{Crypto}
use webex_kms_sdk.Encryption.State.{EncryptionClient}
use webex_kms_sdk.Encryption.Session.{World}
use webex_kms_sdk.Encryption.Retrieval.{clear_inflight, store_key, cached_key}

-- The client, the URI of each task that runs, the outcome of each that has ended, the task and URI
-- that each caller awaits, and the answers that were given.
pub record Callers : Type 0 where
  pub client : EncryptionClient
  pub running : Dict ℕ String
  pub outcomes : Dict ℕ (Result Key)
  pub waiting : Dict ℕ (ℕ × String)
  pub answers : List (ℕ × Result Key)
  pub next_task : ℕ

abbrev pub answer : ℕ → Result Key → Callers → Callers
answer caller r s = record s {
  answers = s.answers ++ ((caller, r) ∷ []);
  waiting = erase caller s.waiting;
}

-- The inflight task is joined, or a task is created.
unfoldable pub join_or_create : ℕ → String → Option ℕ → Callers → Callers
join_or_create caller key_uri (some task) s = record s {
  waiting = insert caller (task, key_uri) s.waiting;
}
join_or_create caller key_uri none s = record s {
  client = record s.client { inflight_keys = insert key_uri s.next_task s.client.inflight_keys };
  running = insert s.next_task key_uri s.running;
  waiting = insert caller (s.next_task, key_uri) s.waiting;
  next_task = s.next_task + 1;
}

abbrev pub ask_checked : ℕ → String → Result (String × String) → Callers → Callers
ask_checked caller key_uri (err e) s = answer caller (err e) s
ask_checked caller key_uri (ok _) s =
    join_or_create caller key_uri (lookup key_uri s.client.inflight_keys) s

-- What follows a task that a caller has awaited: the entry is cleared if it is still this task's.
unfoldable pub collect : ℕ → ℕ → String → Option (Result Key) → Callers → Callers
collect caller task key_uri none s = s
collect caller task key_uri (some r) s =
    answer caller r (record s { client = clear_inflight key_uri task s.client })

module _ (py : Python) (crypto : Crypto) (world : World) (core : CoreHttpClient) where
  abbrev pub ask_cached : ℕ → String → Option Key → Callers → Callers
  ask_cached caller key_uri (some key) s = answer caller (ok key) s
  ask_cached caller key_uri none s = ask_checked caller key_uri (parse_kms_uri key_uri) s

  -- `get_key` up to `await task`
  unfoldable pub ask : ℕ → String → Callers → Callers
  ask caller key_uri s =
      ask_cached caller key_uri (cached_key py crypto world core key_uri s.client) s

  -- A task whose retrieval ended.
  unfoldable pub finish : ℕ → String → Result Key → Callers → Callers
  finish task key_uri (ok key) s = record s {
    client = store_key py crypto world core key_uri key s.client;
    running = erase task s.running;
    outcomes = insert task (ok key) s.outcomes;
  }
  finish task key_uri (err e) s = record s {
    running = erase task s.running;
    outcomes = insert task (err e) s.outcomes;
  }

  -- A step of a caller, of a task that runs, or of another part of the client.
  pub data Step (s : Callers) : Callers → Type 0 where
    asks : (caller : ℕ) (key_uri : String) → Step s (ask caller key_uri s)
    finishes :
        (task : ℕ) (key_uri : String) (r : Result Key)
        → lookup task s.running ≡ some key_uri
        → Step s (finish task key_uri r s)
    resumes :
        (caller task : ℕ) (key_uri : String)
        → lookup caller s.waiting ≡ some (task, key_uri)
        → is_some (lookup task s.running) ≡ false
        → Step s (collect caller task key_uri (lookup task s.outcomes) s)
    others :
        (c : EncryptionClient)
        → c.inflight_keys ≡ s.client.inflight_keys
        → Step s (record s { client = c })

  pub data Steps (s : Callers) : Callers → Type 0 where
    done : Steps s s
    then_step : {t u : Callers} → Steps s t → Step t u → Steps s u
