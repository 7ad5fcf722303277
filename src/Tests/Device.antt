-- ===== src/Tests/Device.antt =====
-- The theorems on the device client at concrete inputs.
use webex_kms_sdk.Base.{none, [], ◌∷◌}
use webex_kms_sdk.Exceptions.{ok}
use webex_kms_sdk.Json.{string, object, field, end}
use webex_kms_sdk.Http.{Net}
use webex_kms_sdk.Device.{initial_device, DeviceWorld, ensure_registered, get_websocket_url}
use webex_kms_sdk.Device.Laws.{IsSound}
use webex_kms_sdk.Device.Registration.{
  registers, unregisters, reads, listens, history, history-initial-IsSound, Read,
  get_websocket_url-Read,
}
use webex_kms_sdk.Tests.Fixtures.{toy_python, toy_core, reply}

-- Callback 9 raises nothing, as all others.
abbrev toy_device_world : DeviceWorld
toy_device_world = record { millis = λ n. n; raises = λ f. none }

abbrev device_net : Net
device_net = record {
  replies =
      ok (
        reply 200
          (ok (object (field "webSocketUrl" (string "wss://m") (field "url" (string "u") end)))))
      ∷ ok (reply 204 (ok (string "")))
      ∷ [];
  log = [];
}

history-initial-IsSound_example :
    IsSound toy_python
      (history toy_python toy_device_world toy_core
        (listens 9 ∷ registers ∷ reads ∷ unregisters ∷ [])
        (record { client = initial_device; net = device_net; ticks = 0 })).client
history-initial-IsSound_example =
    history-initial-IsSound toy_python toy_device_world toy_core
      (listens 9 ∷ registers ∷ reads ∷ unregisters ∷ []) device_net

get_websocket_url-Read_example :
    Read toy_python toy_device_world toy_core
      (λ d. d.web_socket_url)
      (ensure_registered toy_python toy_device_world toy_core
        (record { client = initial_device; net = device_net; ticks = 0 }))
      (get_websocket_url toy_python toy_device_world toy_core
        (record { client = initial_device; net = device_net; ticks = 0 }))
get_websocket_url-Read_example =
    get_websocket_url-Read toy_python toy_device_world toy_core
      (record { client = initial_device; net = device_net; ticks = 0 })
