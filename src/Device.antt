-- ===== src/Device.antt =====
-- `DeviceClient` of `src/webex_kms_sdk/device.py`. A callback is a number, its identity; the client
-- keeps the calls that were made. One caller runs at a time, and each part of `register` is a
-- function of its own, so that the parts of two callers can be put in any order.
pub mod Registration
pub mod Laws
use webex_kms_sdk.Base.{
  ℕ, ◌+◌, String, ◌<>◌, Bool, true, false, ◌||◌, Option, none, some, List, [], ◌∷◌, ◌++◌, eqb, leb,
  ltb, is_some, contains, string_eq, nat_eq, if◌then◌else◌,
}
use webex_kms_sdk.Dict.{Dict, lookup}
use webex_kms_sdk.Number.{decimal}
use webex_kms_sdk.Exceptions.{
  Exception, is_exception, runtime_error, timeout_error, foreign, Result, ok, err, Action, and_then,
  bind_result,
}
use webex_kms_sdk.Text.{nonempty}
use webex_kms_sdk.Json.{Json, object, string, Fields, end, field, Python, expect_dict}
use webex_kms_sdk.Models.Device.{Device, device_from_dict}
use webex_kms_sdk.Http.{Response, Net}
use webex_kms_sdk.Core.{CoreHttpClient, request_url}
use webex_kms_sdk.Config.{Config}
use webex_kms_sdk.Errors.{api_error_from_response}

pub record DeviceClient : Type 0 where
  pub device : Option Device
  pub registered : Bool
  pub registering : Bool
  pub callbacks : List ℕ
  pub called : List ℕ

-- `DeviceClient.__init__`
abbrev pub initial_device : DeviceClient
initial_device = record {
  device = none;
  registered = false;
  registering = false;
  callbacks = [];
  called = [];
}

-- The client with its network, and how often the clock was read.
pub record DeviceSession : Type 0 where
  pub client : DeviceClient
  pub net : Net
  pub ticks : ℕ

-- What is outside: the clock in milliseconds, and what a callback raises when it is called.
pub record DeviceWorld : Type 0 where
  pub millis : ℕ → ℕ
  pub raises : ℕ → Option Exception

abbrev pub on_device : (DeviceClient → DeviceClient) → DeviceSession → DeviceSession
on_device f s = record s { client = f s.client }

-- The lock section of `register`: whether the call goes on, and the state.
unfoldable pub begin_register : DeviceClient → Bool × DeviceClient
begin_register c = elim c.device [
  | some _ ↦ (false, c)
  | none ↦ (true, record c { registering = true })
]

abbrev pub registration_payload : Json
registration_payload = object (
    field "deviceType" (string "TEAMS_SDK_JS") (
      field "name" (string "Webex SDK") (
        field "model" (string "Webex Python KMS SDK") (
          field "localizedModel" (string "Cisco Webex Teams") (
            field "systemName" (string "Webex Python KMS SDK")
              (field "systemVersion" (string "1.0.0") end))))))

abbrev pub registration_headers : ℕ → Dict String String
registration_headers millis =
    ("Accept", "application/json")
    ∷ (
      "User-Agent",
      "Mozilla/5.0 (Macintosh; Intel Mac OS X 10_15_7) AppleWebKit/537.36 (KHTML, like Gecko) "
          <> "Chrome/91.0.4472.124 Safari/537.36",
    )
    ∷ ("TrackingID", "PythonKmsSDK_" <> decimal millis)
    ∷ []

-- `response.headers.get("ETag", "")`
abbrev pub etag_of : Response → String
etag_of r = elim (lookup "ETag" r.headers) [ none ↦ "" | some etag ↦ etag ]

-- `Device.from_dict(response.json(), etag=…)`
abbrev pub device_of_body : Python → Response → Result Device
device_of_body py r =
    bind_result r.json
      λ v. bind_result (expect_dict v) (λ fs. ok (device_from_dict py fs (etag_of r)))

abbrev pub registered_device : Python → Response → Result Device
registered_device py r =
    if eqb r.status_code 200 || eqb r.status_code 201
    then device_of_body py r
    else err (api_error_from_response py r)

-- `except Exception: self._registering = False`
abbrev pub registration_failed : Exception → DeviceClient → DeviceClient
registration_failed e c = if is_exception e then record c { registering = false } else c

abbrev pub publish_device : Device → DeviceClient → DeviceClient
publish_device d c = record c { device = some d; registered = true; registering = false }

-- `304`, or the device of a response of success.
abbrev pub refreshed_device : Python → Response → Result (Option Device)
refreshed_device py r =
    if eqb r.status_code 304
    then ok none
    else if ltb r.status_code 200 || leb 300 r.status_code
    then err (api_error_from_response py r)
    else bind_result (device_of_body py r) (λ d. ok (some d))

abbrev pub refresh_headers : Device → Dict String String
refresh_headers d = if nonempty d.etag then ("If-None-Match", d.etag) ∷ [] else []

-- The device, where it has a URL.
abbrev pub device_with_url : Option Device → Option Device
device_with_url none = none
device_with_url (some d) = if nonempty d.url then some d else none

module _ (py : Python) (world : DeviceWorld) (core : CoreHttpClient) where
  -- The calls of callbacks, up to one that raises.
  unfoldable pub call_callbacks : List ℕ → Action DeviceSession (Unit {0})
  call_callbacks [] s = (ok tt, s)
  call_callbacks (f ∷ fs) s =
      let t = on_device (λ c. record c { called = c.called ++ (f ∷ []) }) s in
      let rest = call_callbacks fs t in elim (world.raises f) [ some e ↦ (err e, t) | none ↦ rest ]

  -- `await self._core.request_url(…)`
  abbrev pub device_request :
      String
      → String
      → Dict String String
      → Option Json
      → Dict String String
      → Action DeviceSession Response
  device_request method url params body headers s =
      let (r, w) = request_url py core method url params body headers s.net in
      (r, record s { net = w })

  abbrev pub finish_register : Result Device → Action DeviceSession (Unit {0})
  finish_register (err e) s = (err e, on_device (registration_failed e) s)
  finish_register (ok d) s = call_callbacks s.client.callbacks (on_device (publish_device d) s)

  -- What the registration request gives.
  abbrev pub registration_reply : Result Response → Result Device
  registration_reply r = bind_result r (registered_device py)

  abbrev pub finish_reply : Result Response × DeviceSession → Result (Unit {0}) × DeviceSession
  finish_reply (r, t) = finish_register (registration_reply r) t

  -- `register`, after the lock section.
  unfoldable pub complete_register : Action DeviceSession (Unit {0})
  complete_register s = finish_reply (
      device_request "POST" core.config.wdm_url (("includeUpstreamServices", "all") ∷ [])
        (some registration_payload) (registration_headers (world.millis s.ticks))
        (record s { ticks = s.ticks + 1 }))

  abbrev pub register_from : Bool × DeviceClient → Action DeviceSession (Unit {0})
  register_from (true, c) s = complete_register (record s { client = c })
  register_from (false, c) s = (ok tt, s)

  -- `DeviceClient.register`
  unfoldable pub register : Action DeviceSession (Unit {0})
  register s = register_from (begin_register s.client) s

  abbrev pub clear_device : Response → Action DeviceSession (Unit {0})
  clear_device r s =
      if eqb r.status_code 200 || eqb r.status_code 204
      then (ok tt, on_device (λ c. record c { device = none; registered = false }) s)
      else (err (api_error_from_response py r), s)

  -- `DeviceClient.unregister`
  unfoldable pub unregister : Action DeviceSession (Unit {0})
  unregister s = elim (device_with_url s.client.device) [
    | none ↦ (ok tt, s)
    | some d ↦ and_then (device_request "DELETE" d.url [] none [] s) clear_device
  ]

  abbrev pub store_refreshed : Result (Option Device) → Action DeviceSession (Unit {0})
  store_refreshed (err e) s = (err e, s)
  store_refreshed (ok none) s = (ok tt, s)
  store_refreshed (ok (some d)) s =
      (ok tt, on_device (λ c. record c { device = some d; registered = true }) s)

  -- `DeviceClient.refresh`
  unfoldable pub refresh : Action DeviceSession (Unit {0})
  refresh s = elim (device_with_url s.client.device) [
    | none ↦ (err (runtime_error "device not registered, cannot refresh"), s)
    | some d ↦
        and_then (device_request "PUT" d.url [] none (refresh_headers d) s)
          (λ r. store_refreshed (refreshed_device py r))
  ]

  -- `DeviceClient._ensure_registered`
  unfoldable pub ensure_registered : Action DeviceSession (Unit {0})
  ensure_registered s = if is_some s.client.device then (ok tt, s) else register s

  -- A missing device fails the `assert`.
  abbrev pub take_device : {A : Type 0} → (Device → A) → Option Device → Action DeviceSession A
  take_device f none t = (err (foreign ""), t)
  take_device f (some d) t = (ok (f d), t)

  -- An accessor.
  abbrev pub read_device : {A : Type 0} → (Device → A) → Action DeviceSession A
  read_device f s = and_then (ensure_registered s) (λ _ t. take_device f t.client.device t)

  unfoldable pub get_websocket_url : Action DeviceSession String
  get_websocket_url = read_device (λ d. d.web_socket_url)

  unfoldable pub get_device_url : Action DeviceSession String
  get_device_url = read_device (λ d. d.url)

  unfoldable pub get_user_id : Action DeviceSession String
  get_user_id = read_device (λ d. d.user_id)

  unfoldable pub get_device : Action DeviceSession Device
  get_device = read_device (λ d. device_from_dict py d.raw d.etag)

  -- `if self._registered: callback()`
  abbrev pub notify : Bool → ℕ → Action DeviceSession (Unit {0})
  notify true f t = call_callbacks (f ∷ []) t
  notify false f t = (ok tt, t)

  -- `DeviceClient.on_registered`
  unfoldable pub on_registered : ℕ → Action DeviceSession (Unit {0})
  on_registered f s =
      notify s.client.registered f
        (on_device (λ c. record c { callbacks = c.callbacks ++ (f ∷ []) }) s)

  -- `DeviceClient.wait_for_registration`, of a waiter with its own identity, and what other tasks do
  -- before the timeout.
  unfoldable pub wait_for_registration :
      ℕ → (DeviceSession → DeviceSession) → Action DeviceSession (Unit {0})
  wait_for_registration waiter meanwhile s =
      if s.client.registered
      then (ok tt, s)
      else and_then (on_registered waiter s) λ _ t.
        let u = meanwhile t in
        if contains u.client.called waiter then (ok tt, u) else (err timeout_error, u)
