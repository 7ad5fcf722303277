-- ===== src/Mercury/Loops.antt =====
-- The background loops of `MercuryClient`. A loop that waits for a frame or for its interval returns
-- the state in which it waits.
use webex_kms_sdk.Base.{ℕ, ◌-◌, false, Option, none, some, List, [], ◌∷◌, ◌++◌, leb, if◌then◌else◌}
use webex_kms_sdk.Number.{ℤ, pos, negsuc, decimal}
use webex_kms_sdk.Exceptions.{
  Exception, is_exception, runtime_error, Result, ok, err, Action, and_then, bind_result,
}
use webex_kms_sdk.Json.{Json, object, Python}
use webex_kms_sdk.Models.Event.{MercuryEvent, event_from_dict}
use webex_kms_sdk.Mercury.{process_event}
use webex_kms_sdk.Mercury.Client.{
  Frame, pinged, MercurySession, MercuryWorld, on_mercury, frames_of, take_frame, now, on_wire,
}
use webex_kms_sdk.Mercury.Authentication.{frame_event}
use webex_kms_sdk.Mercury.Connection.{remove_task, handle_connection_error}

-- `int(time.time() * 1000) - ping_time_ms`
abbrev pub difference : ℕ → ℕ → ℤ
difference a b = if leb b a then pos (a - b) else negsuc (b - a - 1)

-- The event of a frame, if it is a JSON object.
abbrev pub event_of : Python → Option Json → Result (Option MercuryEvent)
event_of py (some (object fs)) = bind_result (event_from_dict py fs) (λ ev. ok (some ev))
event_of py _ = ok none

abbrev pub frame_mercury_event : Python → Frame → Result (Option MercuryEvent)
frame_mercury_event py f = bind_result (frame_event py f) (event_of py)

module _ {P : Type 0} where
  abbrev pub set_disconnected : MercurySession P → MercurySession P
  set_disconnected = on_mercury (λ c. record c { connected = false })

  abbrev pub process_received : Option MercuryEvent → MercurySession P → MercurySession P
  process_received none s = s
  process_received (some ev) s = record s {
    scheduled = s.scheduled ++ process_event s.client.handlers ev;
  }

  -- The end of a task.
  abbrev pub end_task : ℕ → MercurySession P → MercurySession P
  end_task t s = record s { running = remove_task t s.running }

  -- `except Exception`, and the `finally` of the reader loop.
  abbrev pub reader_failed : ℕ → Exception → Action (MercurySession P) (Unit {0})
  reader_failed task e s =
      if is_exception e
      then (ok tt, end_task task (set_disconnected (handle_connection_error s)))
      else (err e, end_task task (set_disconnected s))

  abbrev pub pinged_round :
      ℕ → Result (Unit {0}) × MercurySession P → Result (Unit {0}) × MercurySession P
  pinged_round task (ok _, s) = (ok tt, s)
  pinged_round task (err e, s) =
      if is_exception e
      then (ok tt, end_task task (handle_connection_error s))
      else (err e, end_task task s)

  module _ (py : Python) where
    -- `MercuryClient._reader_loop`, of a task, over the frames that come.
    unfoldable pub read_frames : ℕ → ℕ → List Frame → Action (MercurySession P) (Unit {0})
    read_frames task ws [] s = (ok tt, s)
    read_frames task ws (f ∷ fs) s =
        let t = take_frame ws f fs s in
        elim (frame_mercury_event py f) [
          | err e ↦ reader_failed task e t
          | ok ev ↦ read_frames task ws fs (process_received ev t)
        ]

    abbrev pub read_socket : ℕ → Option ℕ → Action (MercurySession P) (Unit {0})
    read_socket task none s = (ok tt, end_task task (set_disconnected s))
    read_socket task (some ws) s = read_frames task ws (frames_of ws s) s

    unfoldable pub reader_loop : ℕ → Action (MercurySession P) (Unit {0})
    reader_loop task s = read_socket task s.client.ws s

  module _ (world : MercuryWorld) where
    abbrev pub measure : ℕ → Action (MercurySession P) (Unit {0})
    measure ping_time s =
        let (millis, t) = now world s in
        (ok tt, on_mercury (λ c. record c { time_offset_ms = difference millis ping_time }) t)

    abbrev pub ping_socket : Option ℕ → Action (MercurySession P) (Unit {0})
    ping_socket none s = (err (runtime_error "websocket connection is nil"), s)
    ping_socket (some ws) s =
        let (ping_time, t) = now world s in
        and_then (on_wire world (pinged ws (decimal ping_time)) t) (λ _ u. measure ping_time u)

    -- `MercuryClient.ping`
    unfoldable pub ping : Action (MercurySession P) (Unit {0})
    ping s = ping_socket s.client.ws s

    -- One round of `_ping_loop`, of a task, after its interval.
    unfoldable pub ping_round : ℕ → Action (MercurySession P) (Unit {0})
    ping_round task s = pinged_round task (ping s)
