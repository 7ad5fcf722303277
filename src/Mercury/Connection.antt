-- ===== src/Mercury/Connection.antt =====
-- `connect` with its backoff, `disconnect`, and what `MercuryClient` does about a lost connection. One
-- of these runs at a time; a background task is a step of its own.
use webex_kms_sdk.Base.{
  ℕ, zero, suc, ◌+◌, ◌*◌, String, ◌<>◌, Bool, true, false, not, ◌&&◌, Option, none, some, List, [],
  ◌∷◌, leb, contains, nat_eq, ◌==◌, if◌then◌else◌,
}
use webex_kms_sdk.Number.{decimal}
use webex_kms_sdk.Text.{nonempty}
use webex_kms_sdk.Exceptions.{
  Exception, is_exception, runtime_error, exception_text, Result, ok, err, Action, and_then,
}
use webex_kms_sdk.Json.{Python}
use webex_kms_sdk.Config.{Config}
use webex_kms_sdk.Core.{CoreHttpClient}
use webex_kms_sdk.Mercury.Client.{
  DeviceProvider, MercuryClient, closed_socket, cancelled, waited, MercurySession, MercuryWorld,
  on_mercury, log_action, spawn, call_provider, on_wire,
}
use webex_kms_sdk.Mercury.Authentication.{attempt_connection}

abbrev pub min : ℕ → ℕ → ℕ
min a b = if leb a b then a else b

-- How often a connection is tried again.
abbrev pub max_retries : {P : Type 0} → Config → MercuryClient P → ℕ
max_retries config c =
    if c.has_connected
    then config.mercury_max_retries
    else config.mercury_initial_connection_max_retries

-- The error after so many attempts.
abbrev pub gave_up : ℕ → Exception → Exception
gave_up count e =
    runtime_error
      (("failed to connect after " <> decimal count) <> (" attempts: " <> exception_text e))

-- `task.cancel()`: the task runs no more.
unfoldable pub remove_task : ℕ → List ℕ → List ℕ
remove_task t [] = []
remove_task t (r ∷ rs) = let rest = remove_task t rs in if r == t then rest else r ∷ rest

-- The URL of the device, or the configured one where the device has none.
abbrev pub or_fallback_url : Config → String → String
or_fallback_url config url = if nonempty url then url else config.mercury_fallback_websocket_url

module _ {P : Type 0} where
  abbrev pub stop_connecting : MercurySession P → MercurySession P
  stop_connecting = on_mercury (λ c. record c { connecting = false })

  abbrev pub cancel : Option ℕ → MercurySession P → MercurySession P
  cancel none s = s
  cancel (some t) s = log_action (cancelled t) (record s { running = remove_task t s.running })

  -- Whether the task has started and not ended.
  abbrev pub is_running : Option ℕ → MercurySession P → Bool
  is_running none s = false
  is_running (some t) s = contains s.running t

  abbrev pub clear_connection : MercuryClient P → MercuryClient P
  clear_connection c = record c {
    closing = true;
    ws = none;
    connected = false;
    connecting = false;
    reader_task = none;
    ping_task = none;
  }

  -- `MercuryClient._start_reconnect`
  unfoldable pub start_reconnect : MercurySession P → MercurySession P
  start_reconnect s =
      if is_running s.client.reconnect_task s
      then s
      else let (t, u) = spawn s in on_mercury (λ c. record c { reconnect_task = some t }) u

  -- `MercuryClient._handle_connection_error`
  unfoldable pub handle_connection_error : MercurySession P → MercurySession P
  handle_connection_error s =
      let t = on_mercury (λ c. record c { connected = false }) s in
      if s.client.connected && not s.client.closing then start_reconnect t else t

  module _ (world : MercuryWorld) where
    abbrev pub close_socket : Option ℕ → Action (MercurySession P) (Unit {0})
    close_socket none s = (ok tt, s)
    close_socket (some ws) s = on_wire world (closed_socket ws) s

    -- `MercuryClient.disconnect`, and its alias `stop_listening`
    unfoldable pub disconnect : Action (MercurySession P) (Unit {0})
    disconnect s =
        if not s.client.connected && not s.client.connecting
        then (ok tt, s)
        else close_socket s.client.ws (
            cancel s.client.ping_task (cancel s.client.reader_task (on_mercury clear_connection s)))

module _ {P : Type 0} (py : Python) (world : MercuryWorld) (core : CoreHttpClient) where
  -- The end of the last attempt that is allowed.
  abbrev pub exhausted :
      ℕ → Result (Unit {0}) × MercurySession P → Result (Unit {0}) × MercurySession P
  exhausted count (ok _, s) = (ok tt, s)
  exhausted count (err e, s) =
      if is_exception e then (err (gave_up count e), stop_connecting s) else (err e, s)

  -- An attempt that raised is followed by the rest.
  abbrev pub after_attempt :
      Result (Unit {0}) × MercurySession P
      → Result (Unit {0}) × MercurySession P
      → Result (Unit {0}) × MercurySession P
  after_attempt rest (ok _, t) = (ok tt, t)
  after_attempt rest (err e, t) = if is_exception e then rest else (err e, t)

  -- The loop of `_connect_with_backoff`, with so many retries left, so many done and the next delay.
  unfoldable pub attempt_connections : String → ℕ → ℕ → ℕ → Action (MercurySession P) (Unit {0})
  attempt_connections url zero count delay s =
      exhausted (count + 1) (attempt_connection py world core url s)
  attempt_connections url (suc left) count delay s =
      let out = attempt_connection py world core url s in
      after_attempt
        (attempt_connections url left (count + 1)
          (min (delay * 2) core.config.mercury_backoff_time_max) (log_action (waited delay) out.1))
        out

  -- `MercuryClient._connect_with_backoff`
  unfoldable pub connect_with_backoff : String → Action (MercurySession P) (Unit {0})
  connect_with_backoff url s =
      attempt_connections url (max_retries core.config s.client) 0
        core.config.mercury_backoff_time_reset s

  -- A nonempty URL of the device is used.
  abbrev pub connect_device : String → Action (MercurySession P) (Unit {0})
  connect_device url s =
      if nonempty url
      then connect_with_backoff url s
      else (err (runtime_error "device provider returned empty WebSocket URL"), s)

  abbrev pub connect_provider : Option (DeviceProvider P) → Action (MercurySession P) (Unit {0})
  connect_provider none s = (err (runtime_error "no device provider or custom URL available"), s)
  connect_provider (some p) s =
      and_then (call_provider p.register s)
        (λ _ t. and_then (call_provider p.get_websocket_url t) connect_device)

  abbrev pub connect_selected : Action (MercurySession P) (Unit {0})
  connect_selected s =
      if nonempty s.client.custom_websocket_url
      then connect_with_backoff s.client.custom_websocket_url s
      else connect_provider s.client.device_provider s

  abbrev pub connect_settled :
      Result (Unit {0}) × MercurySession P → Result (Unit {0}) × MercurySession P
  connect_settled (ok _, s) = (ok tt, s)
  connect_settled (err e, s) = (err e, if is_exception e then stop_connecting s else s)

  -- `MercuryClient.connect`, and its alias `listen`
  unfoldable pub connect : Action (MercurySession P) (Unit {0})
  connect s =
      if s.client.connected
      then (ok tt, s)
      else if s.client.connecting
      then (err (runtime_error "connection attempt already in progress"), s)
      else connect_settled
          (connect_selected (on_mercury (λ c. record c { connecting = true; closing = false }) s))

  abbrev pub reconnect_url_found :
      Result String × MercurySession P → Result String × MercurySession P
  reconnect_url_found (ok url, s) = (ok (or_fallback_url core.config url), s)
  reconnect_url_found (err e, s) = (if is_exception e then ok "" else err e, s)

  abbrev pub reconnect_url_of : Option (DeviceProvider P) → Action (MercurySession P) String
  reconnect_url_of none s = (ok core.config.mercury_fallback_websocket_url, s)
  reconnect_url_of (some p) s =
      reconnect_url_found
        (and_then (call_provider p.register s) (λ _ t. call_provider p.get_websocket_url t))

  -- `MercuryClient._get_reconnect_url`
  unfoldable pub get_reconnect_url : Action (MercurySession P) String
  get_reconnect_url s =
      if nonempty s.client.custom_websocket_url
      then (ok s.client.custom_websocket_url, s)
      else reconnect_url_of s.client.device_provider s

  abbrev pub finally_stop :
      Result (Unit {0}) × MercurySession P → Result (Unit {0}) × MercurySession P
  finally_stop (r, s) = (r, stop_connecting s)

  abbrev pub reconnect_to : String → Action (MercurySession P) (Unit {0})
  reconnect_to url s =
      if nonempty url then finally_stop (connect_with_backoff url s) else (ok tt, stop_connecting s)

  -- `MercuryClient._reconnect`
  unfoldable pub reconnect : Action (MercurySession P) (Unit {0})
  reconnect s =
      and_then
        (close_socket world s.client.ws
          (on_mercury (λ c. record c { ws = none; connecting = true }) s))
        (λ _ t. and_then (get_reconnect_url t) reconnect_to)
