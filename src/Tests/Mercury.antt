-- ===== src/Tests/Mercury.antt =====
-- The theorems on the Mercury connection at concrete inputs.
use webex_kms_sdk.Base.{
  ℕ, ◌+◌, ◌≤◌, ◌≡◌, refl, true, String, none, some, List, [], ◌∷◌, ◌++◌, length, eqb, string_eq,
  nat_eq, arith, if◌then◌else◌,
}
use webex_kms_sdk.Exceptions.{Result, ok, err, foreign}
use webex_kms_sdk.Json.{string, object, field, end, Python, get}
use webex_kms_sdk.Models.Device.{Device, device_from_dict}
use webex_kms_sdk.Device.{initial_device, publish_device, DeviceSession}
use webex_kms_sdk.Dict.{lookup, insert}
use webex_kms_sdk.Number.{seconds}
use webex_kms_sdk.Mercury.Loops.{reader_loop}
use webex_kms_sdk.Mercury.Client.{
  initial_mercury, MercurySession, MercuryWorld, text, lost, websockets_connect,
  set_custom_websocket_url, on_mercury,
}
use webex_kms_sdk.Mercury.Authentication.{
  publish_connection, attempt_connection, prepare_websocket_url, authenticate_connection,
  wait_for_confirmation, frame_verdict, send_initial_ping,
}
use webex_kms_sdk.Mercury.Connection.{
  max_retries, attempt_connections, connect_with_backoff, connect, disconnect, or_fallback_url,
  handle_connection_error, is_running, get_reconnect_url,
}
use webex_kms_sdk.Mercury.Growth.{waits}
use webex_kms_sdk.Mercury.Delays.{all_at_most}
use webex_kms_sdk.Mercury.Backoff.{
  IsBackedOff, connect_with_backoff-IsBackedOff, connect_with_backoff_bounded,
}
use webex_kms_sdk.Mercury.Live.{IsTrue}
use webex_kms_sdk.Mercury.Runs.{done, then_step, connects, redirects, reads, Steps-IsTrue}
use webex_kms_sdk.Mercury.Lost.{
  device_provider, disconnect-handle_connection_error, get_reconnect_url_stored,
}
use webex_kms_sdk.Tests.Fixtures.{toy_python, toy_core}

-- The text of the frame that confirms is the only JSON.
abbrev mercury_python : Python
mercury_python = record toy_python {
  loads = λ s.
      ok (
        object (field "data" (object (field "eventType" (string "mercury.buffer_state") end)) end));
}

-- The first dial fails. The others give a websocket that confirms and is then lost.
abbrev mercury_world : MercuryWorld
mercury_world = record {
  millis = λ n. n;
  dials = λ n.
      if eqb n 0 then err (foreign "refused") else ok (text "buffer" ∷ lost (foreign "gone") ∷ []);
  completes = λ n. ok tt;
  query_of = λ s. ok [];
  with_query = λ s q. s;
}

abbrev mercury_session : MercurySession (Unit {0})
mercury_session = record {
  client = initial_mercury;
  provider = tt;
  frames = [];
  log = [];
  ticks = 0;
  next_task = 0;
  running = [];
  scheduled = [];
}

connect_with_backoff-IsBackedOff_example :
    IsBackedOff mercury_python mercury_session
      (max_retries toy_core.config mercury_session.client)
      0
      toy_core.config.mercury_backoff_time_reset
      toy_core.config.mercury_backoff_time_max
      (connect_with_backoff mercury_python mercury_world toy_core "wss://m" mercury_session)
connect_with_backoff-IsBackedOff_example =
    connect_with_backoff-IsBackedOff mercury_python mercury_world toy_core "wss://m" mercury_session

-- The second attempt connects.
connected_run :
    (connect_with_backoff mercury_python mercury_world toy_core "wss://m"
      mercury_session).1.client.connected
    ≡ true
unfolding connect_with_backoff attempt_connections attempt_connection prepare_websocket_url
    websockets_connect authenticate_connection wait_for_confirmation frame_verdict send_initial_ping
    publish_connection lookup insert get string_eq nat_eq
connected_run = refl

connect_with_backoff_bounded_example :
    (ws : List ℕ) × (waits
        (connect_with_backoff mercury_python mercury_world toy_core "wss://m" mercury_session).1.log
      ≡ waits [] ++ ws)
    × (all_at_most (seconds 1 + seconds 32) ws ≡ true)
    × (length ws ≤ 5)
connect_with_backoff_bounded_example =
    connect_with_backoff_bounded mercury_python mercury_world toy_core "wss://m" mercury_session
      (seconds 1 + seconds 32) (omega arith) (omega arith)

Steps-IsTrue_example :
    IsTrue mercury_python
      (reader_loop mercury_python 0
        (connect mercury_python mercury_world toy_core
          (on_mercury (set_custom_websocket_url "wss://m") mercury_session)).1).1
Steps-IsTrue_example =
    Steps-IsTrue mercury_python mercury_world toy_core mercury_session
      (reader_loop mercury_python 0
        (connect mercury_python mercury_world toy_core
          (on_mercury (set_custom_websocket_url "wss://m") mercury_session)).1).1
      refl (then_step (then_step (then_step done (redirects "wss://m")) connects) (reads 0))

-- A session with an established connection.
abbrev established : MercurySession (Unit {0})
established = record mercury_session {
  client = record initial_mercury { ws = some 1; connected = true; has_connected = true };
}

disconnect-handle_connection_error_example :
    Path
      (Result (Unit {0}) × MercurySession (Unit {0}))
      (disconnect mercury_world (handle_connection_error established))
      (ok tt, handle_connection_error established)
    × (is_running
          (handle_connection_error established).client.reconnect_task
          (handle_connection_error established)
        ≡ true)
disconnect-handle_connection_error_example =
    disconnect-handle_connection_error mercury_world established refl refl refl

abbrev stored_device : Device
stored_device = device_from_dict toy_python (field "webSocketUrl" (string "wss://old") end) ""

abbrev stored_session : MercurySession DeviceSession
stored_session = record {
  client = record initial_mercury {
    device_provider =
        some (device_provider toy_python (record { millis = λ n. n; raises = λ f. none }) toy_core);
  };
  provider = record {
    client = publish_device stored_device initial_device;
    net = record { replies = []; log = [] };
    ticks = 0;
  };
  frames = [];
  log = [];
  ticks = 0;
  next_task = 0;
  running = [];
  scheduled = [];
}

get_reconnect_url_stored_example :
    Path
      (Result String × MercurySession DeviceSession)
      (get_reconnect_url toy_python mercury_world toy_core stored_session)
      (ok (or_fallback_url toy_core.config stored_device.web_socket_url), stored_session)
get_reconnect_url_stored_example =
    get_reconnect_url_stored toy_python (record { millis = λ n. n; raises = λ f. none })
      mercury_world toy_core stored_session stored_device refl refl refl
