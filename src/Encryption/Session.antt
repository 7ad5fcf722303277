-- ===== src/Encryption/Session.antt =====
-- A running client of `src/webex_kms_sdk/encryption.py`: its state with the network, and what it
-- takes from outside. One retrieval runs, and beside it the listener that hands over KMS messages:
-- they arrive while a request or a future is awaited.
pub mod Shrinks
use webex_kms_sdk.Base.{ℕ, ◌+◌, String, Bool, Option, none, some, List, [], ◌∷◌, nat_eq}
use webex_kms_sdk.Dict.{Dict, lookup, insert}
use webex_kms_sdk.Number.{Bytes}
use webex_kms_sdk.Exceptions.{Exception, timeout_error, cancelled_error, Result, ok, err, Action}
use webex_kms_sdk.Json.{Json, Python}
use webex_kms_sdk.Models.Jwk.{Key}
use webex_kms_sdk.Http.{Response, Net}
use webex_kms_sdk.Core.{CoreHttpClient, request_url}
use webex_kms_sdk.Encryption.Crypto.{Crypto, EcPrivateKey}
use webex_kms_sdk.Encryption.State.{FutureState, waiting, resolved, cancelled, EncryptionClient}
use webex_kms_sdk.Encryption.Messages.{process_kms_messages}

-- `ticks` counts what was taken from outside.
pub record Session : Type 0 where
  pub client : EncryptionClient
  pub net : Net
  pub ticks : ℕ

-- What each tick gives: the time in float units, the 16 bytes of an identifier, a generated key,
-- the batches of KMS messages that arrive before an await ends, and how a task ends that another
-- caller started.
pub record World : Type 0 where
  pub clock : ℕ → ℕ
  pub random : ℕ → Bytes
  pub key_pair : ℕ → EcPrivateKey
  pub arrivals : ℕ → List (List String)
  pub join : ℕ → ℕ → Action Session Key

-- The state without its other parts, and the state one tick later.
abbrev pub on_client : (EncryptionClient → EncryptionClient) → Session → Session
on_client f s = record s { client = f s.client }

abbrev pub tick : Session → Session
tick s = record s { ticks = s.ticks + 1 }

-- `try: … finally: …`, of a `finally` that does not raise.
abbrev pub finally : {A : Type 0} → Result A × Session → (Session → Session) → Result A × Session
finally (r, s) f = (r, f s)

-- What awaiting a future gives, if it is done.
abbrev pub outcome : Option FutureState → Option (Result Bytes)
outcome (some (resolved b)) = some (ok b)
outcome (some cancelled) = some (err cancelled_error)
outcome (some waiting) = none
outcome none = none

abbrev pub future_outcome : ℕ → EncryptionClient → Option (Result Bytes)
future_outcome f c = outcome (lookup f c.futures)

-- `wait_for` cancels the future that it gives up.
abbrev pub cancel_future : ℕ → EncryptionClient → EncryptionClient
cancel_future f c = record c { futures = insert f cancelled c.futures }

module _ (py : Python) (crypto : Crypto) where
  -- A batch that raises is logged by the listener; what it did stays.
  unfoldable pub arrive : List (List String) → EncryptionClient → EncryptionClient
  arrive [] c = c
  arrive (batch ∷ batches) c = arrive batches (process_kms_messages py crypto batch c).1

  -- `asyncio.wait_for(future, timeout)`, with the batches that arrive before the timeout.
  unfoldable pub wait_for :
      List (List String) → ℕ → EncryptionClient → Result Bytes × EncryptionClient
  wait_for [] f c = elim (future_outcome f c) [
    | some r ↦ (r, c)
    | none ↦ (err timeout_error, cancel_future f c)
  ]
  wait_for (batch ∷ batches) f c =
      let later = wait_for batches f (process_kms_messages py crypto batch c).1 in
      elim (future_outcome f c) [ some r ↦ (r, c) | none ↦ later ]

  module _ (world : World) (core : CoreHttpClient) where
    -- `await asyncio.wait_for(future, timeout=…)`, on the session
    unfoldable pub await_future : ℕ → Action Session Bytes
    await_future f s =
        let (r, c) = wait_for (world.arrivals s.ticks) f s.client in
        (r, tick (record s { client = c }))

    -- `await self._core.request_url(…)`
    unfoldable pub request :
        String → String → Option Json → Dict String String → Action Session Response
    request method url body headers s =
        let (r, w) = request_url py core method url [] body headers s.net in
        (r, tick (record s { client = arrive (world.arrivals s.ticks) s.client; net = w }))
