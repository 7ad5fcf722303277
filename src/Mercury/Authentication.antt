-- ===== src/Mercury/Authentication.antt =====
-- One connection attempt of `MercuryClient`: the URL, the websocket, the authorization frame and the
-- wait for Mercury's confirmation.
use webex_kms_sdk.Base.{
  ℕ, String, ◌<>◌, Bool, true, false, Option, none, some, List, [], ◌∷◌, ◌==◌, string_eq,
  if◌then◌else◌,
}
use webex_kms_sdk.Dict.{Dict}
use webex_kms_sdk.Number.{decimal}
use webex_kms_sdk.Exceptions.{
  Exception, is_exception, runtime_error, json_decode_error, type_error, timeout_error, Result, ok,
  err, Action, and_then, bind_result,
}
use webex_kms_sdk.Json.{Json, string, array, object, Fields, end, field, Python, get}
use webex_kms_sdk.Core.{CoreHttpClient, update_headers}
use webex_kms_sdk.Mercury.{is_state_event}
use webex_kms_sdk.Mercury.Client.{
  Frame, text, binary, lost, sent_text, closed_socket, MercurySession, MercuryWorld, on_mercury,
  spawn, frames_of, take_frame, now, on_wire, websockets_connect,
}

-- What the wait makes of a frame.
pub data Verdict : Type 0 where
  confirmed unclear : Verdict
  refused : Exception → Verdict

-- `event_type in {…}`, which needs a value that can be hashed.
abbrev pub is_confirmation : Json → Result Bool
is_confirmation (string t) = ok (is_state_event t)
is_confirmation (array _) = err (type_error "unhashable type: 'list'")
is_confirmation (object _) = err (type_error "unhashable type: 'dict'")
is_confirmation _ = ok false

-- `v == "error"`
abbrev pub is_error : Json → Bool
is_error (string t) = t == "error"
is_error _ = false

-- The headers of the dial, and the authorization frame.
abbrev pub connect_headers : String → ℕ → Dict String String
connect_headers token millis =
    ("Authorization", "Bearer " <> token) ∷ ("TrackingID", "python-kms-sdk_" <> decimal millis) ∷ []

abbrev pub auth_message : String → ℕ → ℕ → Json
auth_message token id tracking = object (
    field "id" (string (decimal id)) (
      field "type" (string "authorization") (
        field "data" (object (field "token" (string token) end))
          (field "trackingId" (string ("python-kms-sdk_" <> decimal tracking)) end))))

-- The ping of the authorized websocket.
abbrev pub ping_message : ℕ → Json
ping_message id = object (field "id" (string (decimal id)) (field "type" (string "ping") end))

module _ {P : Type 0} where
  -- The connected state, with the two background loops.
  unfoldable pub publish_connection : ℕ → MercurySession P → MercurySession P
  publish_connection ws s =
      let (reader, t) = spawn s in
      let (pinger, u) = spawn t in
      on_mercury
        (λ c. record c {
          ws = some ws;
          connected = true;
          connecting = false;
          has_connected = true;
          reader_task = some reader;
          ping_task = some pinger;
        })
        u

module _ (py : Python) where
  -- `authorization failed`, of an error event.
  abbrev pub error_verdict : Fields → Verdict
  error_verdict event =
      if is_error (get "type" event)
      then refused (runtime_error ("authorization failed: " <> py.repr (object event)))
      else unclear

  abbrev pub state_verdict : Result Bool → Fields → Verdict
  state_verdict (err e) event = refused e
  state_verdict (ok true) event = confirmed
  state_verdict (ok false) event = error_verdict event

  abbrev pub data_verdict : Json → Fields → Verdict
  data_verdict (object fs) event = state_verdict (is_confirmation (get "eventType" fs)) event
  data_verdict _ event = error_verdict event

  abbrev pub event_verdict : Json → Verdict
  event_verdict (object event) = data_verdict (get "data" event) event
  event_verdict _ = unclear

  -- `await ws.recv()`, decoded.
  abbrev pub frame_text : Frame → Result String
  frame_text (text s) = ok s
  frame_text (binary bs) = py.decode bs
  frame_text (lost e) = err e

  -- `json.loads(raw)`. A text that is no JSON is skipped.
  abbrev pub parsed : Result Json → Result (Option Json)
  parsed (ok v) = ok (some v)
  parsed (err (json_decode_error _)) = ok none
  parsed (err e) = err e

  abbrev pub frame_event : Frame → Result (Option Json)
  frame_event f = bind_result (frame_text f) (λ raw. parsed (py.loads raw))

  abbrev pub verdict_of : Result (Option Json) → Verdict
  verdict_of (err e) = refused e
  verdict_of (ok none) = unclear
  verdict_of (ok (some v)) = event_verdict v

  unfoldable pub frame_verdict : Frame → Verdict
  frame_verdict f = verdict_of (frame_event f)

  module _ {P : Type 0} (world : MercuryWorld) (core : CoreHttpClient) where
    -- `MercuryClient.prepare_websocket_url`
    unfoldable pub prepare_websocket_url : String → Action (MercurySession P) String
    prepare_websocket_url url s =
        let (millis, t) = now world s in
        (
          bind_result (world.query_of url) (λ query. ok (
              world.with_query url (
                update_headers query (
                  ("outboundWireFormat", "text")
                  ∷ ("bufferStates", "true")
                  ∷ ("aliasHttpStatus", "true")
                  ∷ ("clientTimestamp", decimal millis)
                  ∷ [])))),
          t,
        )

    -- `MercuryClient._send_initial_ping`
    unfoldable pub send_initial_ping : ℕ → Action (MercurySession P) (Unit {0})
    send_initial_ping ws s =
        let (id, t) = now world s in on_wire world (sent_text ws (py.dumps (ping_message id))) t

    -- `wait_for_confirmation`, over the frames that come before the timeout.
    unfoldable pub wait_for_confirmation : ℕ → List Frame → Action (MercurySession P) (Unit {0})
    wait_for_confirmation ws [] s = (err timeout_error, s)
    wait_for_confirmation ws (f ∷ fs) s =
        let t = take_frame ws f fs s in
        let rest = wait_for_confirmation ws fs t in
        elim (frame_verdict f) [
          | confirmed ↦ send_initial_ping ws t
          | refused e ↦ (err e, t)
          | unclear ↦ rest
        ]

    abbrev pub await_confirmation : ℕ → Action (MercurySession P) (Unit {0})
    await_confirmation ws t = wait_for_confirmation ws (frames_of ws t) t

    -- `MercuryClient._authenticate_connection`
    unfoldable pub authenticate_connection : ℕ → Action (MercurySession P) (Unit {0})
    authenticate_connection ws s =
        let (id, t) = now world s in
        let (tracking, u) = now world t in
        and_then
          (on_wire world (sent_text ws (py.dumps (auth_message core.access_token id tracking))) u)
          (λ _ v. await_confirmation ws v)

    -- The websocket of a failed authentication is closed.
    abbrev pub settle_connection :
        ℕ → Result (Unit {0}) × MercurySession P → Result (Unit {0}) × MercurySession P
    settle_connection ws (ok _, s) = (ok tt, publish_connection ws s)
    settle_connection ws (err e, s) =
        if is_exception e
        then and_then (on_wire world (closed_socket ws) s) (λ _ t. (err e, t))
        else (err e, s)

    -- `MercuryClient._attempt_connection`
    unfoldable pub attempt_connection : String → Action (MercurySession P) (Unit {0})
    attempt_connection url s = and_then (prepare_websocket_url url s) λ prepared t.
        let (millis, u) = now world t in
        and_then (websockets_connect world prepared (connect_headers core.access_token millis) u)
          (λ ws v. settle_connection ws (authenticate_connection ws v))
