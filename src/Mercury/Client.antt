-- ===== src/Mercury/Client.antt =====
-- The state of `MercuryClient` of `src/webex_kms_sdk/mercury.py`, and the websockets and tasks that
-- it works with. A websocket and a task are numbers, their identities. The provider of the device is
-- any implementation of the two calls that the client makes of it.
use webex_kms_sdk.Base.{
  ℕ, ◌+◌, String, Bool, false, Option, none, some, List, [], ◌∷◌, ◌++◌, length, nat_eq,
  if◌then◌else◌,
}
use webex_kms_sdk.Dict.{Dict, insert, lookup}
use webex_kms_sdk.Number.{ℤ, pos, Bytes}
use webex_kms_sdk.Exceptions.{Exception, is_type_error, Result, ok, err, Action}
use webex_kms_sdk.Models.Event.{MercuryEvent}
use webex_kms_sdk.Mercury.{Registry}

-- What the clients call of the object given to `set_device_provider`.
pub record DeviceProvider (P : Type 0) : Type 0 where
  pub register : Action P (Unit {0})
  pub get_websocket_url : Action P String
  pub get_device_url : Action P String
  pub get_user_id : Action P String

pub record MercuryClient (P : Type 0) : Type 0 where
  pub ws : Option ℕ
  pub connected : Bool
  pub connecting : Bool
  pub has_connected : Bool
  pub closing : Bool
  pub handlers : Registry
  pub reader_task : Option ℕ
  pub ping_task : Option ℕ
  pub reconnect_task : Option ℕ
  pub device_provider : Option (DeviceProvider P)
  pub custom_websocket_url : String
  pub time_offset_ms : ℤ

-- `MercuryClient.__init__`
abbrev pub initial_mercury : {P : Type 0} → MercuryClient P
initial_mercury = record {
  ws = none;
  connected = false;
  connecting = false;
  has_connected = false;
  closing = false;
  handlers = [];
  reader_task = none;
  ping_task = none;
  reconnect_task = none;
  device_provider = none;
  custom_websocket_url = "";
  time_offset_ms = pos 0;
}

-- What `recv` gives: a text, bytes, or an exception.
pub data Frame : Type 0 where
  text : String → Frame
  binary : Bytes → Frame
  lost : Exception → Frame

pub data WireAction : Type 0 where
  dialled : String → Dict String String → WireAction
  received : ℕ → Frame → WireAction
  sent_text pinged : ℕ → String → WireAction
  closed_socket cancelled waited : ℕ → WireAction

-- The client with what it works on: the state of its device provider, the frames that each websocket
-- will still receive, what was done, the clock readings so far, the running background tasks, and
-- the calls of handlers that were scheduled.
pub record MercurySession (P : Type 0) : Type 0 where
  pub client : MercuryClient P
  pub provider : P
  pub frames : Dict ℕ (List Frame)
  pub log : List WireAction
  pub ticks : ℕ
  pub next_task : ℕ
  pub running : List ℕ
  pub scheduled : List (ℕ × MercuryEvent)

-- What is outside. The outcome of a call depends on how much was done before it. A dial gives the
-- frames that its websocket will receive; a send, a close and a pong may fail.
pub record MercuryWorld : Type 0 where
  pub millis : ℕ → ℕ
  pub dials : ℕ → Result (List Frame)
  pub completes : ℕ → Result (Unit {0})
  -- `dict(parse_qsl(urlparse(url).query, keep_blank_values=True))`
  pub query_of : String → Result (Dict String String)
  -- `urlunparse(urlparse(url)._replace(query=urlencode(query)))`
  pub with_query : String → Dict String String → String

abbrev pub listed_frames : Option (List Frame) → List Frame
listed_frames none = []
listed_frames (some fs) = fs

module _ {P : Type 0} where
  abbrev pub on_mercury : (MercuryClient P → MercuryClient P) → MercurySession P → MercurySession P
  on_mercury f s = record s { client = f s.client }

  abbrev pub log_action : WireAction → MercurySession P → MercurySession P
  log_action a s = record s { log = s.log ++ (a ∷ []) }

  -- `MercuryClient.set_device_provider`
  unfoldable pub set_device_provider : DeviceProvider P → MercuryClient P → MercuryClient P
  set_device_provider provider c = record c { device_provider = some provider }

  -- `MercuryClient.set_custom_websocket_url`
  unfoldable pub set_custom_websocket_url : String → MercuryClient P → MercuryClient P
  set_custom_websocket_url url c = record c { custom_websocket_url = url }

  -- A task that starts, and the end of one.
  abbrev pub spawn : MercurySession P → ℕ × MercurySession P
  spawn s = (
    s.next_task,
    record s { next_task = s.next_task + 1; running = s.running ++ (s.next_task ∷ []) },
  )

  -- A call of the device provider.
  abbrev pub call_provider : {A : Type 0} → Action P A → Action (MercurySession P) A
  call_provider call s = let (r, p) = call s.provider in (r, record s { provider = p })

  -- The frames that a websocket will still receive.
  abbrev pub frames_of : ℕ → MercurySession P → List Frame
  frames_of ws s = listed_frames (lookup ws s.frames)

  -- One frame is received, and these are left.
  abbrev pub take_frame : ℕ → Frame → List Frame → MercurySession P → MercurySession P
  take_frame ws f fs s = log_action (received ws f) (record s { frames = insert ws fs s.frames })

  module _ (world : MercuryWorld) where
    -- `int(time.time() * 1000)`
    abbrev pub now : MercurySession P → ℕ × MercurySession P
    now s = (world.millis s.ticks, record s { ticks = s.ticks + 1 })

    -- A call of a websocket that returns nothing.
    abbrev pub on_wire : WireAction → Action (MercurySession P) (Unit {0})
    on_wire a s = (world.completes (length s.log), log_action a s)

    abbrev pub opened : Result (List Frame) → Action (MercurySession P) ℕ
    opened (err e) s = (err e, s)
    opened (ok fs) s = (ok (length s.log), record s { frames = insert (length s.log) fs s.frames })

    -- `websockets.connect(…)`. A websocket is numbered by the log that its dial ends.
    abbrev pub dial : String → Dict String String → Action (MercurySession P) ℕ
    dial url headers s = opened (world.dials (length s.log)) (log_action (dialled url headers) s)

    abbrev pub retry_legacy :
        String → Dict String String → Result ℕ × MercurySession P → Result ℕ × MercurySession P
    retry_legacy url headers (ok ws, s) = (ok ws, s)
    retry_legacy url headers (err e, s) = if is_type_error e then dial url headers s else (err e, s)

    -- `_websockets_connect`
    unfoldable pub websockets_connect : String → Dict String String → Action (MercurySession P) ℕ
    websockets_connect url headers s = retry_legacy url headers (dial url headers s)
